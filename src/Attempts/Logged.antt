-- ===== src/Attempts/Logged.antt =====
-- Idempotency keys (internal/handler/comp_action.go): an action that was applied has its key in the
-- log, keys stay there, and a logged key is answered from the log.
use routewerk.Prelude.{
  ℕ, ◌≡◌, refl, ◌⊎◌, inl, inr, String, eq_iff, Bool, true, false, Option, none, some, arith,
  Bool-cases, Option-cases,
}
use routewerk.Attempts.Types.{
  Attempt, AttemptLog, Db, attempt_not_found, attempt_log_not_found, idempotency_key_exists, failed,
  Result, ok, err, ApplyActionInput,
}
use routewerk.Attempts.Store.{get, find_key, key_taken, get_log_by_idempotency_key}
use routewerk.Attempts.Transaction.{Changes, IsApplied, IsRolledBack, apply_action-atomic}
use routewerk.Attempts.Action.{
  ActionItem, ActionApplied, Outcome, applied, Conditions, done, new_state, restore_latest,
  compute_new_state, replay_collision, answer, replay_if_cached, replayed_of, apply_to, apply_one,
}
use routewerk.Attempts.Apply.{Result-cases, Step-cases, apply_one-cases, write_to, input_to}
use routewerk.Attempts.Undo.{changes_of}

-- The key stands in the log.
abbrev pub IsLogged : String → Db → Type 0
IsLogged key db = key_taken (some key) db.log ≡ true

pub IsLogged-Changes :
    (key : String) (now : ℕ) (db db' : Db) (i : ApplyActionInput)
    → Changes i now db db'
    → IsLogged key db
    → IsLogged key db'
unfolding key_taken find_key
IsLogged-Changes key now db db' i h k = ground (arith, h.logged)

IsLogged-new :
    (key : String) (now : ℕ) (db db' : Db) (i : ApplyActionInput)
    → Changes i now db db'
    → i.idempotency_key ≡ some key
    → IsLogged key db'
unfolding key_taken find_key
IsLogged-new key now db db' i h k = ground (arith, h.logged, h.key_kept, eq_iff key key)

-- applyOne only adds to the log.
pub IsLogged-apply_one :
    (key : String) (c : Conditions) (registration_id actor problem_id : String) (a : ActionItem)
    (db : Db)
    → IsLogged key db
    → IsLogged key (apply_one c registration_id actor problem_id a db).0
IsLogged-apply_one key c registration_id actor problem_id a db k =
    elim (apply_one-cases c registration_id actor problem_id a db) [
      | inl (t, n) ↦ rw t k
      | inr f ↦
          IsLogged-Changes key c.now db _ _ (changes_of c registration_id actor problem_id a db f) k
    ]

abbrev pub is_applied : Outcome → Bool
is_applied (applied a) = true
is_applied _ = false

-- A collision that is answered as applied names a logged key.
replay_collision-IsLogged :
    (key : String) (c : Conditions) (a : ActionItem) (db : Db)
    → a.idempotency_key ≡ some key
    → is_applied (replay_collision c a db) ≡ true
    → IsLogged key db
unfolding replay_collision get_log_by_idempotency_key key_taken
replay_collision-IsLogged key c a db k h = ground arith

answer-IsLogged :
    (key : String) (c : Conditions) (a : ActionItem) (i : ApplyActionInput) (now : ℕ) (db : Db)
    (r : Db × Result (Attempt × AttemptLog))
    → IsRolledBack db r ⊎ IsApplied i now db r
    → i.idempotency_key ≡ some key
    → a.idempotency_key ≡ some key
    → is_applied (answer c a r).1 ≡ true
    → IsLogged key (answer c a r).0
unfolding answer
answer-IsLogged key c a i now db (db', ok (row, l)) (inl (e, h)) ki ka t = cc
answer-IsLogged key c a i now db (db', ok (row, l)) (inr h) ki ka t =
    IsLogged-new key now db db' i h.changes ki
answer-IsLogged key c a i now db (db', err idempotency_key_exists) h ki ka t =
    replay_collision-IsLogged key c a db' ka t
answer-IsLogged key c a i now db (db', err attempt_not_found) h ki ka t = cc
answer-IsLogged key c a i now db (db', err attempt_log_not_found) h ki ka t = cc
answer-IsLogged key c a i now db (db', err failed) h ki ka t = cc

new_state-done :
    (c : Conditions) (a : ActionItem) (r : Option Attempt) (db : Db) (o : Outcome)
    → new_state c a r db ≡ done o
    → is_applied o ≡ false
unfolding new_state restore_latest compute_new_state
new_state-done c a r db o h = ground arith

module _ (key : String) (c : Conditions) (registration_id actor problem_id : String)
    (a : ActionItem) (db : Db) where
  apply_to-IsLogged :
      (r : Option Attempt)
      → a.idempotency_key ≡ some key
      → is_applied (apply_to c registration_id actor problem_id a r db).1 ≡ true
      → IsLogged key (apply_to c registration_id actor problem_id a r db).0
  unfolding apply_to
  apply_to-IsLogged r k t = elim (Step-cases (new_state c a r db)) [
    | inl (o, e) ↦ absurd (ground (arith, e, t, new_state-done c a r db o e))
    | inr (s, e) ↦
        let i = input_to c registration_id actor problem_id a db r s in
        let w = write_to c registration_id actor problem_id a db r s in
        rw (e, apply_to)
          (answer-IsLogged key c a i c.now db w (apply_action-atomic c.tx c.fresh_id c.now i db) k k
            (rw (e, apply_to) at t))
  ]

  -- An action with a key that applyOne answers as applied has its key in the log.
  pub apply_one-IsLogged :
      a.idempotency_key ≡ some key
      → is_applied (apply_one c registration_id actor problem_id a db).1 ≡ true
      → IsLogged key (apply_one c registration_id actor problem_id a db).0
  unfolding apply_one
  apply_one-IsLogged k t = elim (Bool-cases c.get_fails) [
    | inl f ↦ absurd (ground (arith, f, t))
    | inr f ↦ elim (Result-cases (get registration_id problem_id db)) [
      | inl (row, e) ↦ ground (arith, f, e, apply_to-IsLogged (some row) k)
      | inr (x, e) ↦ ground (arith, f, e, apply_to-IsLogged none k)
    ]
  ]

-- A logged key is answered from the log, if the lookup works.
pub replay-IsLogged :
    (key : String) (c : Conditions) (a : ActionItem) (db : Db)
    → c.replay_fails ≡ false
    → IsLogged key db
    → (x : ActionApplied) × (replay_if_cached c key a db ≡ some x) × (x.replayed ≡ true)
unfolding replay_if_cached get_log_by_idempotency_key key_taken
replay-IsLogged key c a db f k = elim (Option-cases (find_key key db.log)) [
  | inl e ↦ absurd (ground (arith, k, e))
  | inr (l, e) ↦ (replayed_of a l, ground (arith, f, e), refl)
]

-- Conversely a replay names a logged key.
pub IsLogged-replay :
    (key : String) (c : Conditions) (a : ActionItem) (db : Db) {x : ActionApplied}
    → replay_if_cached c key a db ≡ some x
    → IsLogged key db
unfolding replay_if_cached get_log_by_idempotency_key key_taken
IsLogged-replay key c a db h = ground arith
