-- ===== src/Events/Moves.antt =====
-- What each step of the event bus (internal/event/memory.go) keeps and adds.
use routewerk.Prelude.{
  ℕ, ◌+◌, ◌-◌, ◌≤◌, ◌≡◌, refl, sym, ap, inl, inr, List, [], ◌∷◌, some, arith, ltb, length,
  length-append, map, Bool-cases, Option-cases,
}
use mathlib.Core.Path.{subst}
use routewerk.Events.Bus.{
  event_worker_count, event_queue_size, Event, Subscription, Task, Publisher, MemoryBus, pick,
  subs_of, subscribe, begin, enqueue, dispatch, advance, take_task, finish_task, finish_overflow,
  Step, subscribes, begins, advances, takes, finishes, finishes_overflow, step, run,
}
use routewerk.Events.Sums.{sum_by, sum_by-append, sum_by-pick, length-pick}

module _ {P H : Type 0} where
  -- The runs that a subscriber list owes to an event.
  abbrev pub tasks_of : Event P → List (Subscription H) → List (Task P H)
  tasks_of e subs = map (λ sub. record { event = e; subscription = sub }) subs

  -- The bounds of the queue and of the pool, and what the wait group counts.
  pub record IsBus (b : MemoryBus P H) : Type 0 where
    pub waited : b.wg ≡ length b.tasks + length b.at_work + length b.overflow
    pub queue : length b.tasks ≤ event_queue_size
    pub pool : length b.at_work ≤ event_worker_count

  module _ (f : Task P H → ℕ) where
    -- The weight of what a publisher still has to handle, and of all runs, made or to be made.
    abbrev pub owed : Publisher P H → ℕ
    owed p = sum_by f (tasks_of p.event p.subs)

    abbrev pub total : MemoryBus P H → ℕ
    total b =
        sum_by owed b.publishers
        + sum_by f b.tasks
        + sum_by f b.at_work
        + sum_by f b.overflow
        + sum_by f b.ran

    -- A step keeps the bounds, and adds a weight.
    pub record IsMove (added : ℕ) (b b' : MemoryBus P H) : Type 0 where
      pub sound : IsBus b'
      pub weight : total b' ≡ total b + added

    enqueue-IsMove :
        (task : Task P H) (b : MemoryBus P H) → IsBus b → IsMove (f task) b (enqueue task b)
    unfolding enqueue sum_by
    enqueue-IsMove task b h = elim (Bool-cases (ltb (length b.tasks) event_queue_size)) [
      | inl e ↦
          let l = length-append b.tasks (task ∷ []) in
          rw (e, enqueue)
            (record {
              sound = record {
                waited = omega (arith, h.waited, l);
                queue = ground (arith, l, e);
                pool = h.pool;
              };
              weight = omega (arith, sum_by-append f b.tasks (task ∷ []));
            })
      | inr e ↦
          rw (e, enqueue)
            (record {
              sound = record { waited = omega (arith, h.waited); queue = h.queue; pool = h.pool };
              weight = omega arith;
            })
    ]

    dispatch-IsMove :
        (task : Task P H) (b : MemoryBus P H) → IsBus b → IsMove (f task) b (dispatch task b)
    unfolding dispatch sum_by
    dispatch-IsMove task b h = elim (Bool-cases task.subscription.is_sync) [
      | inl e ↦
          let came : dispatch task b ≡ record b { ran = task ∷ b.ran } = ground (arith, e) in
          subst (IsMove (f task) b) (sym came) (record {
            sound = record { waited = h.waited; queue = h.queue; pool = h.pool };
            weight = omega arith;
          })
      | inr e ↦
          let came : dispatch task b ≡ enqueue task b = ground (arith, e) in
          subst (IsMove (f task) b) (sym came) (enqueue-IsMove task b h)
    ]

    stay-IsMove : (b : MemoryBus P H) → IsBus b → IsMove 0 b b
    stay-IsMove b h = record { sound = h; weight = omega arith }

    advance-IsMove : (k : ℕ) (b : MemoryBus P H) → IsBus b → IsMove 0 b (advance k b)
    unfolding advance sum_by
    advance-IsMove k b h = elim (Option-cases (pick k b.publishers)) [
      | inl e ↦
          let came : advance k b ≡ b = ground (arith, e) in
          subst (IsMove 0 b) (sym came) (stay-IsMove b h)
      | inr ((p, others), e) ↦ next p.event p.subs others e
    ]
      where
        next :
            (v : Event P) (subs : List (Subscription H)) (others : List (Publisher P H))
            → pick k b.publishers ≡ some (record { event = v; subs = subs }, others)
            → IsMove 0 b (advance k b)
        next v [] others e =
            let came : advance k b ≡ record b { publishers = others } = ground (arith, e) in
            subst (IsMove 0 b) (sym came) (record {
              sound = record { waited = h.waited; queue = h.queue; pool = h.pool };
              weight = omega (arith, sum_by-pick owed k b.publishers _ others e);
            })
        next v (sub ∷ subs) others e =
            let b' : MemoryBus P H = record b {
              publishers = record { event = v; subs = subs } ∷ others;
            } in
            let task : Task P H = record { event = v; subscription = sub } in
            let came : advance k b ≡ dispatch task b' = ground (arith, e) in
            let d =
              dispatch-IsMove task b'
                (record { waited = h.waited; queue = h.queue; pool = h.pool }) in
            subst (IsMove 0 b) (sym came) (record {
              sound = d.sound;
              weight = omega (arith, d.weight, sum_by-pick owed k b.publishers _ others e);
            })

    take_task-IsMove : (b : MemoryBus P H) → IsBus b → IsMove 0 b (take_task b)
    unfolding take_task sum_by
    take_task-IsMove b h = next b.tasks refl
      where
        next : (tasks : List (Task P H)) → b.tasks ≡ tasks → IsMove 0 b (take_task b)
        next [] q =
            let came : take_task b ≡ b = ground (arith, q) in
            subst (IsMove 0 b) (sym came) (stay-IsMove b h)
        next (task ∷ tasks) q = elim (Bool-cases (ltb (length b.at_work) event_worker_count)) [
          | inl e ↦
              let came : take_task b ≡ record b { tasks = tasks; at_work = task ∷ b.at_work } =
                ground (arith, q, e) in
              subst (IsMove 0 b) (sym came) (record {
                sound = record {
                  waited = omega (arith, h.waited, ap length q);
                  queue = omega (arith, h.queue, ap length q);
                  pool = ground (arith, e);
                };
                weight = omega (arith, ap (sum_by f) q);
              })
          | inr e ↦
              let came : take_task b ≡ b = ground (arith, q, e) in
              subst (IsMove 0 b) (sym came) (stay-IsMove b h)
        ]

    finish_task-IsMove : (k : ℕ) (b : MemoryBus P H) → IsBus b → IsMove 0 b (finish_task k b)
    unfolding finish_task sum_by
    finish_task-IsMove k b h = elim (Option-cases (pick k b.at_work)) [
      | inl e ↦
          let came : finish_task k b ≡ b = ground (arith, e) in
          subst (IsMove 0 b) (sym came) (stay-IsMove b h)
      | inr ((task, others), e) ↦
          let came : finish_task k b
              ≡ record b { at_work = others; ran = task ∷ b.ran; wg = b.wg - 1 } =
            ground (arith, e) in
          let l = length-pick k b.at_work task others e in
          subst (IsMove 0 b) (sym came) (record {
            sound = record {
              waited = omega (arith, h.waited, l);
              queue = h.queue;
              pool = omega (arith, h.pool, l);
            };
            weight = omega (arith, sum_by-pick f k b.at_work task others e);
          })
    ]

    finish_overflow-IsMove :
        (k : ℕ) (b : MemoryBus P H) → IsBus b → IsMove 0 b (finish_overflow k b)
    unfolding finish_overflow sum_by
    finish_overflow-IsMove k b h = elim (Option-cases (pick k b.overflow)) [
      | inl e ↦
          let came : finish_overflow k b ≡ b = ground (arith, e) in
          subst (IsMove 0 b) (sym came) (stay-IsMove b h)
      | inr ((task, others), e) ↦
          let came : finish_overflow k b
              ≡ record b { overflow = others; ran = task ∷ b.ran; wg = b.wg - 1 } =
            ground (arith, e) in
          let l = length-pick k b.overflow task others e in
          subst (IsMove 0 b) (sym came) (record {
            sound = record { waited = omega (arith, h.waited, l); queue = h.queue; pool = h.pool };
            weight = omega (arith, sum_by-pick f k b.overflow task others e);
          })
    ]

    -- What a step adds: the runs that a publication starts with.
    abbrev pub added : Step P H → MemoryBus P H → ℕ
    added (begins e) b = sum_by f (tasks_of e (subs_of e.event_type b))
    added (subscribes _ _ _) b = 0
    added (advances _) b = 0
    added takes b = 0
    added (finishes _) b = 0
    added (finishes_overflow _) b = 0

    pub step-IsMove : (s : Step P H) (b : MemoryBus P H) → IsBus b → IsMove (added s b) b (step s b)
    unfolding begin subscribe sum_by
    step-IsMove (begins e) b h = record {
      sound = record { waited = h.waited; queue = h.queue; pool = h.pool };
      weight = omega arith;
    }
    step-IsMove (subscribes event_type handler sync) b h = record {
      sound = record { waited = h.waited; queue = h.queue; pool = h.pool };
      weight = omega arith;
    }
    step-IsMove (advances k) b h = advance-IsMove k b h
    step-IsMove takes b h = take_task-IsMove b h
    step-IsMove (finishes k) b h = finish_task-IsMove k b h
    step-IsMove (finishes_overflow k) b h = finish_overflow-IsMove k b h

    -- The weight of all the runs that are published by the steps.
    unfoldable pub published : List (Step P H) → MemoryBus P H → ℕ
    published [] b = 0
    published (s ∷ steps) b = added s b + published steps (step s b)

    pub run-IsMove :
        (steps : List (Step P H)) (b : MemoryBus P H)
        → IsBus b
        → IsMove (published steps b) b (run steps b)
    unfolding run published
    run-IsMove [] b h = stay-IsMove b h
    run-IsMove (s ∷ steps) b h =
        let m = step-IsMove s b h in
        let r = run-IsMove steps (step s b) m.sound in
        record { sound = r.sound; weight = omega (arith, m.weight, r.weight) }
