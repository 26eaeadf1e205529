-- ===== src/Attempts/Turns.antt =====
-- The rounds of the loop of SubmitActions (internal/handler/comp_action.go): each answers an action and
-- writes by applyOne alone, for a problem that is open.
use routewerk.Prelude.{
  ℕ, ◌+◌, ◌≤◌, ◌≡◌, refl, sym, ◌⊎◌, inl, inr, List, [], ◌∷◌, some, arith, ltb, length, Bool-cases,
  Option-cases,
}
use mathlib.Core.Path.{subst}
use mathlib.Core.List.{Memᴰ}
use routewerk.Prelude.Lists.{All, All-imp}
use routewerk.Prelude.Lists.{length-append}
use routewerk.Prelude.Maps.{lookup}
use routewerk.Attempts.Types.{Db}
use routewerk.Attempts.Action.{
  ActionItem, ActionRejected, Outcome, applied, rejected, errored, Conditions, apply_one,
}
use routewerk.Attempts.Submit.{
  add_rejected, Batch, Event, Problem, LoopState, record_outcome, event_of, apply_fresh, cached,
  submit_one, submit_loop,
}
use routewerk.Attempts.Sound.{IsSoundDb, apply_one-IsSoundDb}

-- The number of actions that were answered so far.
abbrev pub answered : LoopState → ℕ
answered s = length s.applied + length s.rejected

-- The problem of an action is one of the competition, and its event has not ended.
pub record IsOpenFor (b : Batch) (a : ActionItem) (p : Problem) : Type 0 where
  pub its_problem : lookup a.problem_id b.problem_by_id ≡ some p
  pub event : Event
  pub its_event : event_of b p ≡ some event
  pub not_ended : b.now ≤ event.ends_at

-- One round answers one action, and changes the tables only by applyOne.
record IsTurn (b : Batch) (c : Conditions) (a : ActionItem) (s t : LoopState) : Type 0 where
  one_more : answered t ≡ answered s + 1
  tables :
      (t.db ≡ s.db)
      ⊎ ((p : Problem) × IsOpenFor b a p
          × (t.db ≡ (apply_one c b.registration_id b.actor p.id a s.db).0))

record_outcome-IsTurn :
    (a : ActionItem) (r : Db × Outcome) (s : LoopState)
    → (answered (record_outcome a r s) ≡ answered s + 1) × ((record_outcome a r s).db ≡ r.0)
record_outcome-IsTurn a (db, applied x) s = (omega (arith, length-append s.applied (x ∷ [])), refl)
record_outcome-IsTurn a (db, rejected x) s =
    (omega (arith, length-append s.rejected (x ∷ [])), refl)
record_outcome-IsTurn a (db, errored) s = (omega (arith, length-append s.rejected (_ ∷ [])), refl)

rejected-IsTurn :
    (b : Batch) (c : Conditions) (a : ActionItem) (s : LoopState) (r : ActionRejected)
    → IsTurn b c a s (add_rejected r s)
rejected-IsTurn b c a s r = record {
  one_more = omega (arith, length-append s.rejected (r ∷ []));
  tables = inl refl;
}

apply_fresh-IsTurn :
    (b : Batch) (c : Conditions) (a : ActionItem) (s : LoopState)
    → IsTurn b c a s (apply_fresh b c a s)
unfolding apply_fresh
apply_fresh-IsTurn b c a s = elim (Option-cases (lookup a.problem_id b.problem_by_id)) [
  | inl e ↦ rw (e, apply_fresh) (rejected-IsTurn b c a s _)
  | inr (p, e) ↦ elim (Option-cases (event_of b p)) [
    | inl e2 ↦ rw (e, e2, apply_fresh) (rejected-IsTurn b c a s _)
    | inr (ev, e2) ↦ elim (Bool-cases (ltb ev.ends_at b.now)) [
      | inl e3 ↦ rw (e, e2, e3, apply_fresh) (rejected-IsTurn b c a s _)
      | inr e3 ↦
          let (n, t) =
            record_outcome-IsTurn a (apply_one c b.registration_id b.actor p.id a s.db) s in
          rw (e, e2, e3, apply_fresh)
            (record {
              one_more = n;
              tables = inr (
                p,
                record {
                  its_problem = e;
                  event = ev;
                  its_event = e2;
                  not_ended = ground (arith, e3);
                },
                t,
              );
            })
    ]
  ]
]

submit_one-IsTurn :
    (b : Batch) (c : Conditions) (a : ActionItem) (s : LoopState)
    → IsTurn b c a s (submit_one b c a s)
unfolding submit_one
submit_one-IsTurn b c a s = elim (Option-cases (cached c a s.db)) [
  | inl e ↦ rw (e, submit_one) (apply_fresh-IsTurn b c a s)
  | inr (x, e) ↦
      rw (e, submit_one)
        (record { one_more = omega (arith, length-append s.applied (x ∷ [])); tables = inl refl })
]

pub submit_loop-answered :
    (b : Batch) (actions : List (Conditions × ActionItem)) (s : LoopState)
    → answered (submit_loop b actions s) ≡ answered s + length actions
unfolding submit_loop
submit_loop-answered b [] s = omega arith
submit_loop-answered b ((c, a) ∷ actions) s = omega (
  arith,
  submit_loop-answered b actions (submit_one b c a s),
  (submit_one-IsTurn b c a s).one_more,
)

-- The tables that a sequence of applyOne calls leads to, each for the registration and the caller of
-- the batch, an action of the batch, and a problem that is open for it.
pub data IsWritten (b : Batch) (actions : List (Conditions × ActionItem)) (db : Db)
    : Db → Type 0 where
  same : IsWritten b actions db db
  after_action :
      (c : Conditions) (a : ActionItem) (p : Problem) (db' : Db)
      → Memᴰ (c, a) actions
      → IsOpenFor b a p
      → IsWritten b actions db db'
      → IsWritten b actions db (apply_one c b.registration_id b.actor p.id a db').0

pub All-Memᴰ : {A : Type 0} (xs : List A) → All (λ x. Memᴰ x xs) xs
All-Memᴰ [] = tt
All-Memᴰ (x ∷ xs) = (Memᴰ.head refl, All-imp _ _ (λ y m. Memᴰ.tail m) xs (All-Memᴰ xs))

-- The loop writes for the rest of the actions.
pub submit_loop-IsWritten :
    (b : Batch) (all actions : List (Conditions × ActionItem)) (db : Db) (s : LoopState)
    → All (λ (x : Conditions × ActionItem). Memᴰ x all) actions
    → IsWritten b all db s.db
    → IsWritten b all db (submit_loop b actions s).db
unfolding submit_loop
submit_loop-IsWritten b all [] db s m h = h
submit_loop-IsWritten b all ((c, a) ∷ actions) db s m h =
    submit_loop-IsWritten b all actions db (submit_one b c a s) m.1
      (elim (submit_one-IsTurn b c a s).tables [
        | inl e ↦ subst (IsWritten b all db) (sym e) h
        | inr (p, o, e) ↦ subst (IsWritten b all db) (sym e) (after_action c a p s.db m.0 o h)
      ])

pub IsWritten-IsSoundDb :
    (b : Batch) (actions : List (Conditions × ActionItem)) (db db' : Db)
    → IsWritten b actions db db'
    → IsSoundDb db
    → IsSoundDb db'
IsWritten-IsSoundDb b actions db _ same h = h
IsWritten-IsSoundDb b actions db _ (after_action c a p d m o w) h =
    apply_one-IsSoundDb c b.registration_id b.actor p.id a d
      (IsWritten-IsSoundDb b actions db d w h)
