-- ===== src/Events/Delivery.antt =====
-- What the event bus (internal/event/memory.go) does with what is published.
use routewerk.Prelude.{◌+◌, ℕ, ◌≡◌, Bool, List, arith, if◌then◌else◌}
use routewerk.Events.Bus.{Task, MemoryBus, new_memory_bus, Step, run}
use routewerk.Events.Sums.{sum_by}
use routewerk.Events.Moves.{IsBus, total, published, run-IsMove}
use routewerk.Events.Quiet.{ahead, CanFinish, bus-CanFinish}

module _ {P H : Type 0} where
  -- One for what passes a test.
  abbrev pub one_if : (Task P H → Bool) → Task P H → ℕ
  one_if test task = if test task then 1 else 0

  pub record IsDelivered (steps : List (Step P H)) (b : MemoryBus P H) : Type 0 where
    pub bus : IsBus b
    pub conserved :
        (test : Task P H → Bool)
        → total (one_if test) b ≡ published (one_if test) steps new_memory_bus
    pub can_finish : CanFinish b

  -- Whatever steps a new bus takes, the queue holds no more than 256 tasks, no more than 8 workers are
  -- busy, and the wait group counts the tasks that have not run; of every kind of run, as many as the
  -- publications owed to those then subscribed have been made, are in the queue, at a worker or in a
  -- goroutine, or are still to be handled by a publisher: none is lost or made twice. And from there
  -- some steps bring the bus to rest: no publisher is in its loop, Shutdown returns nil, and the runs
  -- made are exactly those that were owed.
  pub run-IsDelivered : (steps : List (Step P H)) → IsDelivered steps (run steps new_memory_bus)
  unfolding sum_by
  run-IsDelivered steps =
      let start : IsBus new_memory_bus = record {
        waited = omega arith;
        queue = omega arith;
        pool = omega arith;
      } in
      let b : MemoryBus P H = run steps new_memory_bus in
      let sound = (run-IsMove (λ task. 0) steps new_memory_bus start).sound in
      let conserved : (test : Task P H → Bool)
          → total (one_if test) b ≡ published (one_if test) steps new_memory_bus =
        λ test. omega (arith, (run-IsMove (one_if test) steps new_memory_bus start).weight) in
      record {
        bus = sound;
        conserved = conserved;
        can_finish = bus-CanFinish (ahead b + 1) b sound (omega arith);
      }
