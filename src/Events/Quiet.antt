-- ===== src/Events/Quiet.antt =====
-- From every state of the event bus (internal/event/memory.go) it can come to rest.
use routewerk.Prelude.{
  ℕ, zero, suc, ◌+◌, ◌-◌, ◌*◌, ◌≤◌, ◌<◌, ◌≡◌, refl, sym, ap, ◌⊎◌, inl, inr, true, List, [], ◌∷◌,
  ◌++◌, arith, ltb, length, length-append, Bool-cases,
}
use mathlib.Core.Path.{subst}
use routewerk.Events.Bus.{
  event_queue_size, Subscription, Task, Publisher, MemoryBus, pick, enqueue, dispatch, advance,
  take_task, finish_task, finish_overflow, is_drained, Step, advances, takes, finishes,
  finishes_overflow, step, run,
}
use routewerk.Events.Sums.{sum_by, sum_by-empty, List-cases}
use routewerk.Events.Moves.{IsBus, owed, total, added, step-IsMove}

module _ {P H : Type 0} where
  -- The steps that are left: of a publisher, of a task in the queue, and of one that is being run.
  abbrev to_handle : Publisher P H → ℕ
  to_handle p = 3 + 3 * length p.subs

  abbrev pub ahead : MemoryBus P H → ℕ
  ahead b =
      sum_by to_handle b.publishers + 2 * length b.tasks + length b.at_work + length b.overflow

  -- Some steps bring the bus to rest, with all the runs made that were owed, and no others.
  pub record CanFinish (b : MemoryBus P H) : Type 0 where
    pub rest : List (Step P H)
    pub drained : is_drained (run rest b) ≡ true
    pub returned : (run rest b).publishers ≡ []
    pub made : (f : Task P H → ℕ) → sum_by f (run rest b).ran ≡ total f b

  -- A step that publishes nothing.
  abbrev IsSilent : Step P H → MemoryBus P H → Type 0
  IsSilent s b = (f : Task P H → ℕ) → added f s b ≡ 0

  after-CanFinish :
      (s : Step P H) (b : MemoryBus P H)
      → IsBus b
      → IsSilent s b
      → CanFinish (step s b)
      → CanFinish b
  unfolding run
  after-CanFinish s b h silent c = record {
    rest = s ∷ c.rest;
    drained = c.drained;
    returned = c.returned;
    made = λ f. omega (arith, c.made f, silent f, (step-IsMove f s b h).weight);
  }

  rest-CanFinish : (b : MemoryBus P H) → IsBus b → b.wg ≡ 0 → b.publishers ≡ [] → CanFinish b
  unfolding run sum_by
  rest-CanFinish b h z q = record {
    rest = [];
    drained = ground (arith, z);
    returned = q;
    made = λ f. omega (
      arith,
      ap (sum_by (owed f)) q,
      sum_by-empty f b.tasks (omega (arith, z, h.waited)),
      sum_by-empty f b.at_work (omega (arith, z, h.waited)),
      sum_by-empty f b.overflow (omega (arith, z, h.waited)),
    );
  }

  dispatch-ahead : (task : Task P H) (b : MemoryBus P H) → ahead (dispatch task b) ≤ ahead b + 2
  unfolding dispatch enqueue
  dispatch-ahead task b = elim (Bool-cases task.subscription.is_sync) [
    | inl s ↦
        let came : dispatch task b ≡ record b { ran = task ∷ b.ran } = ground (arith, s) in
        subst (λ x. ahead x ≤ ahead b + 2) (sym came) (omega arith)
    | inr s ↦ elim (Bool-cases (ltb (length b.tasks) event_queue_size)) [
      | inl e ↦
          let came : dispatch task b ≡ record b { tasks = b.tasks ++ task ∷ []; wg = b.wg + 1 } =
            ground (arith, s, e) in
          subst (λ x. ahead x ≤ ahead b + 2) (sym came)
            (omega (arith, length-append b.tasks (task ∷ [])))
      | inr e ↦
          let came : dispatch task b ≡ record b { overflow = task ∷ b.overflow; wg = b.wg + 1 } =
            ground (arith, s, e) in
          subst (λ x. ahead x ≤ ahead b + 2) (sym came) (omega arith)
    ]
  ]

  -- A publisher that takes a step brings the bus nearer to its rest.
  advance-ahead :
      (b : MemoryBus P H) (p : Publisher P H) (others : List (Publisher P H))
      → b.publishers ≡ p ∷ others
      → ahead (advance 0 b) < ahead b
  unfolding advance pick sum_by
  advance-ahead b p others q = next p.subs refl
    where
      next : (subs : List (Subscription H)) → p.subs ≡ subs → ahead (advance 0 b) < ahead b
      next [] e =
          let came : advance 0 b ≡ record b { publishers = others } = ground (arith, q, e) in
          subst (λ x. ahead x < ahead b) (sym came) (omega (arith, ap (sum_by to_handle) q))
      next (sub ∷ subs) e =
          let b' : MemoryBus P H = record b {
            publishers = record { event = p.event; subs = subs } ∷ others;
          } in
          let task : Task P H = record { event = p.event; subscription = sub } in
          let came : advance 0 b ≡ dispatch task b' = ground (arith, q, e) in
          subst (λ x. ahead x < ahead b) (sym came)
            (omega (arith, ap (sum_by to_handle) q, ap length e, dispatch-ahead task b'))

  -- A worker whose task has run.
  finish-ahead :
      (b : MemoryBus P H) (task : Task P H) (others : List (Task P H))
      → b.at_work ≡ task ∷ others
      → ahead (finish_task 0 b) < ahead b
  unfolding finish_task pick
  finish-ahead b task others q =
      let came : finish_task 0 b
          ≡ record b { at_work = others; ran = task ∷ b.ran; wg = b.wg - 1 } =
        ground (arith, q) in
      subst (λ x. ahead x < ahead b) (sym came) (omega (arith, ap length q))

  -- A goroutine whose task has run.
  overflow-ahead :
      (b : MemoryBus P H) (task : Task P H) (others : List (Task P H))
      → b.overflow ≡ task ∷ others
      → ahead (finish_overflow 0 b) < ahead b
  unfolding finish_overflow pick
  overflow-ahead b task others q =
      let came : finish_overflow 0 b
          ≡ record b { overflow = others; ran = task ∷ b.ran; wg = b.wg - 1 } =
        ground (arith, q) in
      subst (λ x. ahead x < ahead b) (sym came) (omega (arith, ap length q))

  -- An idle worker.
  take-ahead :
      (b : MemoryBus P H) (task : Task P H) (others : List (Task P H))
      → b.tasks ≡ task ∷ others
      → b.at_work ≡ []
      → ahead (take_task b) < ahead b
  unfolding take_task
  take-ahead b task others q idle =
      let came : take_task b ≡ record b { tasks = others; at_work = task ∷ b.at_work } =
        ground (arith, q, idle) in
      subst (λ x. ahead x < ahead b) (sym came) (omega (arith, ap length q))

  -- The bus is at rest, or some step brings it nearer.
  nearer :
      (b : MemoryBus P H)
      → IsBus b
      → ((b.wg ≡ 0) × (b.publishers ≡ []))
        ⊎ ((s : Step P H) × IsSilent s b × (ahead (step s b) < ahead b))
  nearer b h = elim (List-cases b.publishers) [
    | inr (p, others, q) ↦ inr (advances 0, λ f. refl, advance-ahead b p others q)
    | inl none_left ↦ elim (List-cases b.overflow) [
      | inr (task, others, q) ↦ inr (finishes_overflow 0, λ f. refl, overflow-ahead b task others q)
      | inl no_overflow ↦ elim (List-cases b.at_work) [
        | inr (task, others, q) ↦ inr (finishes 0, λ f. refl, finish-ahead b task others q)
        | inl idle ↦ elim (List-cases b.tasks) [
          | inr (task, others, q) ↦ inr (takes, λ f. refl, take-ahead b task others q idle)
          | inl empty ↦
              let zero' : b.wg ≡ 0 =
                omega (arith, h.waited, ap length empty, ap length idle, ap length no_overflow) in
              inl (zero', none_left)
        ]
      ]
    ]
  ]

  pub bus-CanFinish : (fuel : ℕ) (b : MemoryBus P H) → IsBus b → ahead b < fuel → CanFinish b
  unfolding run
  bus-CanFinish zero b h l = absurd (omega (arith, l))
  bus-CanFinish (suc fuel) b h l = elim (nearer b h) [
    | inl rests ↦ rest-CanFinish b h rests.0 rests.1
    | inr (s, silent, less) ↦ after-CanFinish s b h silent (
        bus-CanFinish fuel (step s b) (step-IsMove (λ task. 0) s b h).sound
          (omega (arith, less, l)))
  ]
