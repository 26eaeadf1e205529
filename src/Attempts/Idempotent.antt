-- ===== src/Attempts/Idempotent.antt =====
-- A batch that is sent again (SubmitActions, internal/handler/comp_action.go).
use routewerk.Prelude.{
  suc, ◌+◌, ◌≤◌, ◌≡◌, refl, ap, ◌⊎◌, inl, inr, String, true, false, List, [], ◌∷◌, map, some, arith,
  length, All, ltb, Bool-cases, Option-cases,
}
use routewerk.Prelude.Lists.{length-append, All-append}
use routewerk.Prelude.Maps.{lookup}
use routewerk.Attempts.Types.{Db}
use routewerk.Attempts.Action.{
  ActionItem, ActionApplied, ActionRejected, Outcome, applied, rejected, errored, Conditions,
  server_error, rejection, apply_one,
}
use routewerk.Attempts.Submit.{
  Batch, LoopState, Problem, add_applied, add_rejected, event_of, record_outcome, apply_fresh,
  cached, submit_one, submit_loop, start,
}
use routewerk.Attempts.Logged.{
  IsLogged, is_applied, IsLogged-apply_one, apply_one-IsLogged, replay-IsLogged, IsLogged-replay,
}

record_outcome-cases :
    (a : ActionItem) (r : Db × Outcome) (s : LoopState)
    → ((record_outcome a r s).db ≡ r.0)
      × ((((record_outcome a r s).rejected ≡ s.rejected) × (is_applied r.1 ≡ true))
          ⊎ (length (record_outcome a r s).rejected ≡ suc (length s.rejected)))
record_outcome-cases a (db, applied x) s = (refl, inl (refl, refl))
record_outcome-cases a (db, rejected x) s =
    (refl, inr (omega (arith, length-append s.rejected (x ∷ []))))
record_outcome-cases a (db, errored) s =
    (refl, inr (omega (arith, length-append s.rejected (rejection a server_error ∷ []))))

-- What a round does: the log only grows, and the action is either rejected or, if it has a key, its
-- key is then in the log.
pub record IsRound (key : String) (a : ActionItem) (s t : LoopState) : Type 0 where
  pub kept : (k : String) → IsLogged k s.db → IsLogged k t.db
  pub answered :
      ((t.rejected ≡ s.rejected) × IsLogged key t.db)
      ⊎ (length t.rejected ≡ suc (length s.rejected))

rejected-IsRound :
    (key : String) (a : ActionItem) (s : LoopState) (r : ActionRejected)
    → IsRound key a s (add_rejected r s)
rejected-IsRound key a s r = record {
  kept = λ k h. h;
  answered = inr (omega (arith, length-append s.rejected (r ∷ [])));
}

apply_fresh-IsRound :
    (key : String) (b : Batch) (c : Conditions) (a : ActionItem) (s : LoopState)
    → a.idempotency_key ≡ some key
    → IsRound key a s (apply_fresh b c a s)
unfolding apply_fresh
apply_fresh-IsRound key b c a s k = elim (Option-cases (lookup a.problem_id b.problem_by_id)) [
  | inl e ↦ rw (e, apply_fresh) (rejected-IsRound key a s _)
  | inr (p, e) ↦ elim (Option-cases (event_of b p)) [
    | inl e2 ↦ rw (e, e2, apply_fresh) (rejected-IsRound key a s _)
    | inr (ev, e2) ↦ elim (Bool-cases (ltb ev.ends_at b.now)) [
      | inl e3 ↦ rw (e, e2, e3, apply_fresh) (rejected-IsRound key a s _)
      | inr e3 ↦ rw (e, e2, e3, apply_fresh) (outcome-IsRound p)
    ]
  ]
]
  where
    outcome-IsRound :
        (p : Problem)
        → IsRound key a s (record_outcome a (apply_one c b.registration_id b.actor p.id a s.db) s)
    outcome-IsRound p =
        let r = apply_one c b.registration_id b.actor p.id a s.db in
        let (e, cases) = record_outcome-cases a r s in
        record {
          kept = λ k' h. rw e (IsLogged-apply_one k' c b.registration_id b.actor p.id a s.db h);
          answered = elim cases [
            | inl (same, t) ↦
                inl
                  (same, rw e (apply_one-IsLogged key c b.registration_id b.actor p.id a s.db k t))
            | inr more ↦ inr more
          ];
        }

submit_one-IsRound :
    (key : String) (b : Batch) (c : Conditions) (a : ActionItem) (s : LoopState)
    → a.idempotency_key ≡ some key
    → IsRound key a s (submit_one b c a s)
unfolding submit_one
submit_one-IsRound key b c a s k = elim (Option-cases (cached c a s.db)) [
  | inl e ↦ rw (e, submit_one) (apply_fresh-IsRound key b c a s k)
  | inr (x, e) ↦
      rw (e, submit_one)
        (record {
          kept = λ k' h. h;
          answered = inl (refl, IsLogged-replay key c a s.db {x = x} (ground (arith, e, k)));
        })
]

-- Every action of the batch has a key.
abbrev pub IsKeyed : Conditions × ActionItem → Type 0
IsKeyed (c, a) = (key : String) × (a.idempotency_key ≡ some key)

-- Every action of the batch has a key that stands in the log.
abbrev IsAnswered : Db → Conditions × ActionItem → Type 0
IsAnswered db (c, a) = (key : String) × (a.idempotency_key ≡ some key) × IsLogged key db

module _ (b : Batch) where
  submit_loop-kept :
      (actions : List (Conditions × ActionItem)) (s : LoopState) (key : String)
      → All IsKeyed actions
      → IsLogged key s.db
      → IsLogged key (submit_loop b actions s).db
  unfolding submit_loop
  submit_loop-kept [] s key h l = l
  submit_loop-kept ((c, a) ∷ actions) s key h l =
      submit_loop-kept actions (submit_one b c a s) key h.1
        ((submit_one-IsRound h.0.0 b c a s h.0.1).kept key l)

  submit_loop-rejected :
      (actions : List (Conditions × ActionItem)) (s : LoopState)
      → All IsKeyed actions
      → length s.rejected ≤ length (submit_loop b actions s).rejected
  unfolding submit_loop
  submit_loop-rejected [] s h = omega arith
  submit_loop-rejected ((c, a) ∷ actions) s h =
      elim ((submit_one-IsRound h.0.0 b c a s h.0.1).answered) [
        | inl (e, l) ↦
            omega (arith, ap length e, submit_loop-rejected actions (submit_one b c a s) h.1)
        | inr e ↦ omega (arith, e, submit_loop-rejected actions (submit_one b c a s) h.1)
      ]

  -- A batch of keyed actions none of which is rejected leaves all its keys in the log.
  submit_loop-IsAnswered :
      (actions : List (Conditions × ActionItem)) (s : LoopState)
      → All IsKeyed actions
      → length (submit_loop b actions s).rejected ≤ length s.rejected
      → All (IsAnswered (submit_loop b actions s).db) actions
  unfolding submit_loop
  submit_loop-IsAnswered [] s h l = tt
  submit_loop-IsAnswered ((c, a) ∷ actions) s h l =
      let t : LoopState = submit_one b c a s in
      elim ((submit_one-IsRound h.0.0 b c a s h.0.1).answered) [
        | inl (e, k) ↦ (
          (h.0.0, h.0.1, submit_loop-kept actions t h.0.0 h.1 k),
          submit_loop-IsAnswered actions t h.1 (omega (arith, l, ap length e)),
        )
        | inr e ↦ absurd (omega (arith, l, e, submit_loop-rejected actions t h.1))
      ]

  -- A batch whose keys all stand in the log, and whose replay lookups work, is only replayed.
  replay_loop :
      (actions : List (Conditions × ActionItem)) (again : Conditions × ActionItem → Conditions)
      (s : LoopState)
      → ((p : Conditions × ActionItem) → (again p).replay_fails ≡ false)
      → All (IsAnswered s.db) actions
      → All (λ (x : ActionApplied). x.replayed ≡ true) s.applied
      → let t = submit_loop b (map (λ p. (again p, p.1)) actions) s in
        (t.db ≡ s.db)
        × (t.rejected ≡ s.rejected)
        × All (λ (x : ActionApplied). x.replayed ≡ true) t.applied
        × (length t.applied ≡ length s.applied + length actions)
  unfolding submit_loop submit_one
  replay_loop [] again s w h r = (refl, refl, r, omega arith)
  replay_loop ((c, a) ∷ actions) again s w h r =
      let c' : Conditions = again (c, a) in
      let (x, e, y) = replay-IsLogged h.0.0 c' a s.db (w (c, a)) h.0.2 in
      let t : LoopState = add_applied x a.problem_id s in
      let step : submit_one b c' a s ≡ t = submit_one-cached c' a s x (ground (arith, e, h.0.1)) in
      let (i, j, k, l) =
        replay_loop actions again t w h.1
          (All-append (λ (z : ActionApplied). z.replayed ≡ true) s.applied (x ∷ []) r (y, tt)) in
      rw (submit_loop, step) (i, j, k, omega (arith, l, length-append s.applied (x ∷ [])))
    where
      submit_one-cached :
          (c' : Conditions) (a : ActionItem) (s : LoopState) (x : ActionApplied)
          → cached c' a s.db ≡ some x
          → submit_one b c' a s ≡ add_applied x a.problem_id s
      submit_one-cached c' a s x e = ground (arith, e)

-- Sending a batch again changes nothing: if every action has a key and none was rejected the first
-- time, then the same actions, under any batch and any conditions in which the replay lookup works,
-- leave the tables as they are, reject nothing, and answer every action as a replay.
pub submit_loop-resend :
    (b b' : Batch) (db : Db) (actions : List (Conditions × ActionItem))
    (again : Conditions × ActionItem → Conditions)
    → All IsKeyed actions
    → (submit_loop b actions (start db)).rejected ≡ []
    → ((p : Conditions × ActionItem) → (again p).replay_fails ≡ false)
    → let s = submit_loop b actions (start db) in
      let t = submit_loop b' (map (λ p. (again p, p.1)) actions) (start s.db) in
      (t.db ≡ s.db)
      × (t.rejected ≡ [])
      × All (λ (x : ActionApplied). x.replayed ≡ true) t.applied
      × (length t.applied ≡ length actions)
submit_loop-resend b b' db actions again h e w =
    let s : LoopState = submit_loop b actions (start db) in
    let (i, j, k, l) =
      replay_loop b' actions again (start s.db) w
        (submit_loop-IsAnswered b actions (start db) h (omega (arith, ap length e))) tt in
    (i, j, k, omega (arith, l))
