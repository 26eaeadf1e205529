-- ===== src/Attempts/Apply.antt =====
-- applyOne (internal/handler/comp_action.go): when an action is applied for the first time, and what
-- it then has written.
use routewerk.Prelude.{
  ℕ, ◌≡◌, refl, ap, ◌∙◌, ◌⊎◌, inl, inr, String, Bool, true, false, not, Option, none, some, arith,
  Bool-cases,
}
use routewerk.Attempts.Types.{
  AttemptState, Attempt, AttemptLog, Db, RepoError, attempt_not_found, attempt_log_not_found,
  idempotency_key_exists, failed, Result, ok, err, ApplyActionInput,
}
use routewerk.Attempts.Store.{get, key_taken, fits_columns, apply_action}
use routewerk.Attempts.Transaction.{
  IsApplied, IsRolledBack, apply_action-atomic, apply_action-clean,
}
use routewerk.Attempts.Action.{
  ActionItem, Outcome, applied, rejected, errored, Conditions, Step, done, next, current_state,
  input_of, compute_new_state, restore_latest, new_state, replay_collision, answer, apply_to,
  apply_one,
}

-- The state that the handler takes a pair to be in: a missing row is the zero state.
abbrev pub row_of : Result Attempt → Option Attempt
row_of (ok a) = some a
row_of (err e) = none

abbrev pub state_in : String → String → Db → AttemptState
state_in registration_id problem_id db = current_state (row_of (get registration_id problem_id db))

pub Result-cases :
    {A : Type 0} (r : Result A) → ((a : A) × (r ≡ ok a)) ⊎ ((e : RepoError) × (r ≡ err e))
Result-cases (ok a) = inl (a, refl)
Result-cases (err e) = inr (e, refl)

pub Step-cases : (s : Step) → ((o : Outcome) × (s ≡ done o)) ⊎ ((t : AttemptState) × (s ≡ next t))
Step-cases (done o) = inl (o, refl)
Step-cases (next t) = inr (t, refl)

-- An action was carried out, and is no replay.
abbrev pub is_fresh : Outcome → Bool
is_fresh (applied a) = not a.replayed
is_fresh (rejected r) = false
is_fresh errored = false

-- A collision is answered by a replay or an error.
is_fresh-replay_collision :
    (c : Conditions) (a : ActionItem) (db : Db) → is_fresh (replay_collision c a db) ≡ false
unfolding replay_collision
is_fresh-replay_collision c a db = ground arith

-- `apply_to` writes the tables only by ApplyAction, and is fresh only if that succeeded.
answer-cases :
    (c : Conditions) (a : ActionItem) (i : ApplyActionInput) (now : ℕ) (db : Db)
    (r : Db × Result (Attempt × AttemptLog))
    → IsRolledBack db r ⊎ IsApplied i now db r
    → (((answer c a r).0 ≡ db) × (is_fresh (answer c a r).1 ≡ false))
      ⊎ (((answer c a r).0 ≡ r.0) × (is_fresh (answer c a r).1 ≡ true) × IsApplied i now db r)
unfolding answer
answer-cases c a i now db (db', ok (row, l)) (inl (e, h)) = cc
answer-cases c a i now db (db', ok (row, l)) (inr h) = inr (refl, refl, h)
answer-cases c a i now db (db', err idempotency_key_exists) (inl (e, h)) =
    inl (ground arith, is_fresh-replay_collision c a db')
answer-cases c a i now db (db', err attempt_not_found) (inl (e, h)) = inl (ground arith, refl)
answer-cases c a i now db (db', err attempt_log_not_found) (inl (e, h)) = inl (ground arith, refl)
answer-cases c a i now db (db', err failed) (inl (e, h)) = inl (ground arith, refl)
answer-cases c a i now db (db', err e) (inr h) = absurd (ground (arith, h.succeeded))

answer-applied :
    (c : Conditions) (a : ActionItem) (i : ApplyActionInput) (now : ℕ) (db : Db)
    (r : Db × Result (Attempt × AttemptLog))
    → IsApplied i now db r
    → ((answer c a r).0 ≡ r.0) × (is_fresh (answer c a r).1 ≡ true)
unfolding answer
answer-applied c a i now db (db', ok (row, l)) h = (refl, refl)
answer-applied c a i now db (db', err e) h = absurd (ground (arith, h.succeeded))

-- No query of the action fails.
pub record IsClean (c : Conditions) : Type 0 where
  pub get_works : c.get_fails ≡ false
  pub latest_works : c.latest_fails ≡ false
  pub begin_works : c.tx.begin_fails ≡ false
  pub upsert_works : c.tx.upsert_fails ≡ false
  pub append_works : c.tx.append_fails ≡ false
  pub commit_works : c.tx.commit_fails ≡ false

new_state-done :
    (c : Conditions) (a : ActionItem) (r : Option Attempt) (db : Db) (o : Outcome)
    → new_state c a r db ≡ done o
    → is_fresh o ≡ false
unfolding new_state restore_latest compute_new_state
new_state-done c a r db o h = ground arith

module _ (c : Conditions) (registration_id actor problem_id : String) (action : ActionItem)
    (db : Db) where
  -- The input of the write that leads from the row `r` to state `s`.
  abbrev pub input_to : Option Attempt → AttemptState → ApplyActionInput
  input_to r s = input_of registration_id actor action problem_id (current_state r) s

  abbrev pub write_to : Option Attempt → AttemptState → Db × Result (Attempt × AttemptLog)
  write_to r s = apply_action c.tx c.fresh_id c.now (input_to r s) db

  -- A fresh application of the action to the row `r`: the state that it leads to, and its write.
  pub record IsFreshApplication (r : Option Attempt) (result : Db × Outcome) : Type 0 where
    pub target : AttemptState
    pub from_row : new_state c action r db ≡ next target
    pub write : IsApplied (input_to r target) c.now db (write_to r target)
    pub tables : result.0 ≡ (write_to r target).0
    pub fresh : is_fresh result.1 ≡ true

  -- No fresh application, and no change of the tables.
  abbrev pub IsUnchanged : Db × Outcome → Type 0
  IsUnchanged result = (result.0 ≡ db) × (is_fresh result.1 ≡ false)

  apply_to-cases :
      (r : Option Attempt)
      → IsUnchanged (apply_to c registration_id actor problem_id action r db)
        ⊎ IsFreshApplication r (apply_to c registration_id actor problem_id action r db)
  unfolding apply_to
  apply_to-cases r = elim (Step-cases (new_state c action r db)) [
    | inl (o, k) ↦ rw (k, apply_to) (inl (refl, new_state-done c action r db o k))
    | inr (s, k) ↦
        elim (answer-cases c action (input_to r s) c.now db (write_to r s)
          (apply_action-atomic c.tx c.fresh_id c.now (input_to r s) db)) [
            | inl (t, n) ↦ inl (ground (arith, k, t), ground (arith, k, n))
            | inr (t, n, w) ↦ inr (record {
              target = s;
              from_row = k;
              write = w;
              tables = ground (arith, k, t);
              fresh = ground (arith, k, n);
            })
          ]
  ]

  apply_one-found :
      (a : Attempt)
      → c.get_fails ≡ false
      → get registration_id problem_id db ≡ ok a
      → apply_one c registration_id actor problem_id action db
        ≡ apply_to c registration_id actor problem_id action (some a) db
  unfolding apply_one
  apply_one-found a f e = ground arith

  apply_one-missing :
      c.get_fails ≡ false
      → get registration_id problem_id db ≡ err attempt_not_found
      → apply_one c registration_id actor problem_id action db
        ≡ apply_to c registration_id actor problem_id action none db
  unfolding apply_one
  apply_one-missing f e = ground arith

  -- applyOne either leaves the tables as they are, and then nothing was applied afresh, or it has
  -- written the state that its action leads to from the row that it found.
  pub apply_one-cases :
      IsUnchanged (apply_one c registration_id actor problem_id action db)
      ⊎ IsFreshApplication
          (row_of (get registration_id problem_id db))
          (apply_one c registration_id actor problem_id action db)
  unfolding apply_one
  apply_one-cases = elim (Bool-cases c.get_fails) [
    | inl f ↦ inl (ground arith, ground arith)
    | inr f ↦ elim (Result-cases (get registration_id problem_id db)) [
      | inl (a, e) ↦ rw (apply_one-found a f e, e) (apply_to-cases (some a))
      | inr (attempt_not_found, e) ↦ rw (apply_one-missing f e, e) (apply_to-cases none)
      | inr (x, e) ↦ inl (ground arith, ground arith)
    ]
  ]

  apply_one-row :
      c.get_fails ≡ false
      → apply_one c registration_id actor problem_id action db
        ≡ apply_to c registration_id actor problem_id action
            (row_of (get registration_id problem_id db))
            db
  unfolding apply_one get
  apply_one-row f = ground arith

  apply_to-next :
      (r : Option Attempt) (s : AttemptState)
      → new_state c action r db ≡ next s
      → apply_to c registration_id actor problem_id action r db ≡ answer c action (write_to r s)
  unfolding apply_to
  apply_to-next r s k = ground arith

  applied_of {ℓ κ} : {A : Type ℓ} {B : Type κ} → A ⊎ B → ¬ A → B
  applied_of (inl a) n = absurd (n a)
  applied_of (inr b) n = b

  -- Where no query fails, the state that the action leads to fits and its key is free, the action
  -- is applied afresh.
  pub apply_one-clean :
      (target : AttemptState)
      → new_state c action (row_of (get registration_id problem_id db)) db ≡ next target
      → IsClean c
      → fits_columns target ≡ true
      → key_taken action.idempotency_key db.log ≡ false
      → IsFreshApplication
          (row_of (get registration_id problem_id db))
          (apply_one c registration_id actor problem_id action db)
  apply_one-clean target n k f t =
      let r : Option Attempt = row_of (get registration_id problem_id db) in
      let w : IsApplied (input_to r target) c.now db (write_to r target) =
        applied_of (apply_action-atomic c.tx c.fresh_id c.now (input_to r target) db) (
          apply_action-clean c.tx c.fresh_id c.now (input_to r target) db
            (k.begin_works, k.upsert_works, k.append_works, k.commit_works) f t) in
      let e = apply_one-row k.get_works ∙ apply_to-next r target n in
      let (same, fresh) =
        answer-applied c action (input_to r target) c.now db (write_to r target) w in
      record {
        target = target;
        from_row = n;
        write = w;
        tables = ap (λ (x : Db × Outcome). x.0) e ∙ same;
        fresh = ap (λ (x : Db × Outcome). is_fresh x.1) e ∙ fresh;
      }
