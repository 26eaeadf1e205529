-- ===== src/Attempts/Transaction.antt =====
-- ApplyAction (internal/repository/competition_attempt.go) as a transaction.
use routewerk.Prelude.{
  ℕ, ◌+◌, ◌≡◌, refl, ◌⊎◌, inl, inr, String, str_eq, true, false, not, ◌&&◌, ◌||◌, ◌∷◌, arith,
  Bool-cases,
}
use routewerk.Attempts.Types.{
  Attempt, AttemptLog, Db, RepoError, idempotency_key_exists, failed, Result, ok, err,
  ApplyActionInput, Faults,
}
use routewerk.Attempts.Store.{
  get, fits_columns, upsert, returned, key_taken, log_entry, committed, apply_action,
}
use routewerk.Attempts.Rows.{find_attempt-upsert, find_attempt-upsert_ne, state-upsert}

-- What a committed write has done: the row of its pair holds the new state, every other pair is as
-- before, and one log entry is added, which carries the input.
pub record Changes (i : ApplyActionInput) (now : ℕ) (db db' : Db) : Type 0 where
  pub row : Attempt
  pub entry : AttemptLog
  pub written : get i.registration_id i.problem_id db' ≡ ok row
  pub new_state_kept : row.state ≡ i.new_state
  pub untouched :
      (r p : String)
      → (str_eq i.registration_id r && str_eq i.problem_id p) ≡ false
      → get r p db' ≡ get r p db
  pub logged : db'.log ≡ entry ∷ db.log
  pub of_row : entry.attempt_id ≡ row.id
  pub before_kept : entry.before ≡ i.before_json
  pub after_kept : entry.after ≡ i.after_json
  pub key_kept : entry.idempotency_key ≡ i.idempotency_key
  pub at_now : entry.at ≡ now
  pub next_id : entry.id ≡ db.next_log_id
  pub advanced : db'.next_log_id ≡ db.next_log_id + 1

committed-Changes :
    (fresh_id : String) (now : ℕ) (i : ApplyActionInput) (db : Db)
    → Changes i now db (committed fresh_id now i db)
unfolding get
committed-Changes fresh_id now i db = record {
  row = (upsert fresh_id now i db.attempts).1;
  entry = log_entry i db.next_log_id (upsert fresh_id now i db.attempts).1.id now;
  written = ground (arith, find_attempt-upsert fresh_id now i db.attempts);
  new_state_kept = state-upsert fresh_id now i db.attempts;
  untouched = λ r p h. ground (arith, find_attempt-upsert_ne fresh_id now i db.attempts r p h);
  logged = refl;
  of_row = refl;
  before_kept = refl;
  after_kept = refl;
  key_kept = refl;
  at_now = refl;
  next_id = refl;
  advanced = refl;
}

-- An application that succeeded: the tables after it, the row and entry returned, what changed, that
-- the key was free, and that the state fits the columns.
pub record IsApplied (i : ApplyActionInput) (now : ℕ) (db : Db)
    (r : Db × Result (Attempt × AttemptLog)) : Type 0 where
  pub returned_row : Attempt
  pub returned_entry : AttemptLog
  pub succeeded : r.1 ≡ ok (returned_row, returned_entry)
  pub changes : Changes i now db r.0
  pub same_entry : changes.entry ≡ returned_entry
  pub returned_state : returned_row.state ≡ i.new_state
  pub returned_problem : returned_row.problem_id ≡ i.problem_id
  pub key_free : key_taken i.idempotency_key db.log ≡ false
  pub state_fits : fits_columns i.new_state ≡ true

-- A failure leaves the tables as they were.
abbrev pub IsRolledBack : Db → Db × Result (Attempt × AttemptLog) → Type 0
IsRolledBack db r = (e : RepoError) × (r ≡ (db, err e))

commit-IsApplied :
    (fresh_id : String) (now : ℕ) (i : ApplyActionInput) (db : Db)
    → key_taken i.idempotency_key db.log ≡ false
    → fits_columns i.new_state ≡ true
    → let row = (upsert fresh_id now i db.attempts).1 in
      IsApplied i now db
        (committed fresh_id now i db, ok (returned i row, log_entry i db.next_log_id row.id now))
commit-IsApplied fresh_id now i db k f = record {
  returned_row = _;
  returned_entry = _;
  succeeded = refl;
  changes = committed-Changes fresh_id now i db;
  same_entry = unfold committed-Changes in refl;
  returned_state = refl;
  returned_problem = refl;
  key_free = k;
  state_fits = f;
}

-- ApplyAction is atomic, whichever statements fail: either the tables are as before and an error is
-- returned, or the whole write has happened, the key was free and the new state fits the columns.
pub apply_action-atomic :
    (faults : Faults) (fresh_id : String) (now : ℕ) (i : ApplyActionInput) (db : Db)
    → IsRolledBack db (apply_action faults fresh_id now i db)
      ⊎ IsApplied i now db (apply_action faults fresh_id now i db)
unfolding apply_action
apply_action-atomic faults fresh_id now i db = elim (Bool-cases faults.begin_fails) [
  | inl e ↦ inl (failed, rw e)
  | inr e1 ↦ elim (Bool-cases (faults.upsert_fails || not (fits_columns i.new_state))) [
    | inl e ↦ inl (failed, rw (e1, e))
    | inr e2 ↦ elim (Bool-cases (key_taken i.idempotency_key db.log)) [
      | inl e ↦ inl (idempotency_key_exists, rw (e1, e2, e))
      | inr e3 ↦ elim (Bool-cases faults.append_fails) [
        | inl e ↦ inl (failed, rw (e1, e2, e3, e))
        | inr e4 ↦ elim (Bool-cases faults.commit_fails) [
          | inl e ↦ inl (failed, rw (e1, e2, e3, e4, e))
          | inr e5 ↦
              inr (
                rw (e1, e2, e3, e4, e5)
                  (commit-IsApplied fresh_id now i db e3 (ground (arith, e2))))
        ]
      ]
    ]
  ]
]

-- Where no statement fails, the state fits and the key is free, the application succeeds.
pub apply_action-clean :
    (faults : Faults) (fresh_id : String) (now : ℕ) (i : ApplyActionInput) (db : Db)
    → (faults.begin_fails ≡ false)
      × (faults.upsert_fails ≡ false)
      × (faults.append_fails ≡ false)
      × (faults.commit_fails ≡ false)
    → fits_columns i.new_state ≡ true
    → key_taken i.idempotency_key db.log ≡ false
    → ¬ IsRolledBack db (apply_action faults fresh_id now i db)
unfolding apply_action
apply_action-clean faults fresh_id now i db f s k (e, h) =
    ground (arith, f.0, f.1, f.2, f.3, s, k, h)
