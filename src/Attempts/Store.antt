-- ===== src/Attempts/Store.antt =====
-- CompetitionAttemptRepo (internal/repository/competition_attempt.go): its queries over the two
-- tables. A query is the meaning of its SQL; a transaction that fails leaves the tables as they were.
use routewerk.Prelude.{
  ℕ, ◌+◌, String, str_eq, Bool, true, false, not, ◌&&◌, ◌||◌, List, [], ◌∷◌, Option, none, some,
  ltb, leb, ◌==◌, if◌then◌else◌,
}
use routewerk.Prelude.Int.{ℤ, pos_part, neg_part}
use routewerk.Attempts.Types.{
  AttemptState, Attempt, AttemptLog, Db, attempt_not_found, attempt_log_not_found,
  idempotency_key_exists, failed, Result, ok, err, ApplyActionInput, Faults,
}

-- `WHERE registration_id = $1 AND problem_id = $2`
abbrev pub is_pair : String → String → Attempt → Bool
is_pair registration_id problem_id a =
    str_eq a.registration_id registration_id && str_eq a.problem_id problem_id

unfoldable pub find_attempt : (Attempt → Bool) → List Attempt → Option Attempt
find_attempt p [] = none
find_attempt p (a ∷ rest) = if p a then some a else find_attempt p rest

unfoldable pub get : String → String → Db → Result Attempt
unfolding find_attempt
get registration_id problem_id db =
    elim (find_attempt (is_pair registration_id problem_id) db.attempts) [
      | none ↦ err attempt_not_found
      | some a ↦ ok a
    ]

unfoldable pub get_by_id : String → Db → Result Attempt
unfolding find_attempt
get_by_id id db = elim (find_attempt (λ a. str_eq a.id id) db.attempts) [
  | none ↦ err attempt_not_found
  | some a ↦ ok a
]

-- A nullable key against a key.
abbrev pub has_key : String → AttemptLog → Bool
has_key key l = elim l.idempotency_key [ none ↦ false | some k ↦ str_eq k key ]

unfoldable pub find_key : String → List AttemptLog → Option AttemptLog
find_key key [] = none
find_key key (l ∷ rest) = if has_key key l then some l else find_key key rest

-- GetLogByIdempotencyKey
unfoldable pub get_log_by_idempotency_key : String → Db → Result AttemptLog
unfolding find_key
get_log_by_idempotency_key key db = elim (find_key key db.log) [
  | none ↦ err attempt_log_not_found
  | some l ↦ ok l
]

-- `ORDER BY at DESC, id DESC`
abbrev pub is_later : AttemptLog → AttemptLog → Bool
is_later a b = ltb b.at a.at || (a.at == b.at && ltb b.id a.id)

unfoldable pub latest_of : String → List AttemptLog → Option AttemptLog
latest_of attempt_id [] = none
latest_of attempt_id (l ∷ rest) =
    let found = latest_of attempt_id rest in
    if str_eq l.attempt_id attempt_id
    then elim found [ none ↦ some l | some m ↦ if is_later m l then some m else some l ]
    else found

-- LatestLogForAttempt
unfoldable pub latest_log_for_attempt : String → Db → Result AttemptLog
unfolding latest_of
latest_log_for_attempt attempt_id db = elim (latest_of attempt_id db.log) [
  | none ↦ err attempt_log_not_found
  | some l ↦ ok l
]

-- An `int` that the int4 columns hold; the driver refuses others.
abbrev pub fits_int4 : ℤ → Bool
fits_int4 z = ltb (pos_part z) 2_147_483_648 && leb (neg_part z) 2_147_483_648

abbrev pub fits_columns : AttemptState → Bool
fits_columns s = fits_int4 s.attempts && elim s.zone_attempts [ none ↦ true | some z ↦ fits_int4 z ]

-- `INSERT … ON CONFLICT (registration_id, problem_id) DO UPDATE`: the new table and the row. An
-- update keeps the id, logged_at and the verification.
unfoldable pub upsert : String → ℕ → ApplyActionInput → List Attempt → List Attempt × Attempt
upsert fresh_id now in' [] =
    let row : Attempt = record {
      id = fresh_id;
      registration_id = in'.registration_id;
      problem_id = in'.problem_id;
      state = in'.new_state;
      logged_at = now;
      updated_at = now;
      verified_by = none;
      verified_at = none;
    } in
    (row ∷ [], row)
upsert fresh_id now in' (a ∷ rest) =
    let (rest', row) = upsert fresh_id now in' rest in
    if is_pair in'.registration_id in'.problem_id a
    then (
      record a { state = in'.new_state; updated_at = now } ∷ rest,
      record a { state = in'.new_state; updated_at = now },
    )
    else (a ∷ rest', row)

-- The row that ApplyAction returns: what it was given, and the columns of RETURNING.
abbrev pub returned : ApplyActionInput → Attempt → Attempt
returned in' row = record {
  id = row.id;
  registration_id = in'.registration_id;
  problem_id = in'.problem_id;
  state = in'.new_state;
  logged_at = row.logged_at;
  updated_at = row.updated_at;
  verified_by = none;
  verified_at = none;
}

-- The unique index on idempotency_key, which leaves out null keys.
unfoldable pub key_taken : Option String → List AttemptLog → Bool
unfolding find_key
key_taken none log = false
key_taken (some key) log = elim (find_key key log) [ none ↦ false | some l ↦ true ]

abbrev pub log_entry : ApplyActionInput → ℕ → String → ℕ → AttemptLog
log_entry in' id attempt_id now = record {
  id = id;
  attempt_id = attempt_id;
  actor_user_id = in'.actor_user_id;
  action = in'.action;
  before = in'.before_json;
  after = in'.after_json;
  idempotency_key = in'.idempotency_key;
  at = now;
}

-- The tables after the transaction.
abbrev pub committed : String → ℕ → ApplyActionInput → Db → Db
committed fresh_id now in' db = record db {
  attempts = (upsert fresh_id now in' db.attempts).0;
  log = log_entry in' db.next_log_id (upsert fresh_id now in' db.attempts).1.id now ∷ db.log;
  next_log_id = db.next_log_id + 1;
}

-- ApplyAction: the upsert and the log entry in one transaction; any failure rolls both back.
unfoldable pub apply_action :
    Faults → String → ℕ → ApplyActionInput → Db → Db × Result (Attempt × AttemptLog)
apply_action faults fresh_id now in' db =
    let row = (upsert fresh_id now in' db.attempts).1 in
    if faults.begin_fails
    then (db, err failed)
    else if faults.upsert_fails || not (fits_columns in'.new_state)
    then (db, err failed)
    else if key_taken in'.idempotency_key db.log
    then (db, err idempotency_key_exists)
    else if faults.append_fails
    then (db, err failed)
    else if faults.commit_fails
    then (db, err failed)
    else (
      committed fresh_id now in' db,
      ok (returned in' row, log_entry in' db.next_log_id row.id now),
    )

unfoldable pub stamp : String → String → ℕ → List Attempt → List Attempt
stamp id verifier now [] = []
stamp id verifier now (a ∷ rest) =
    (if str_eq a.id id then record a { verified_by = some verifier; verified_at = some now } else a)
    ∷ stamp id verifier now rest

-- Verify: an UPDATE by id, which fails when no row has it.
unfoldable pub verify : String → String → ℕ → Db → Db × Result (Unit {0})
unfolding stamp find_attempt
verify id verifier now db = elim (find_attempt (λ a. str_eq a.id id) db.attempts) [
  | none ↦ (db, err attempt_not_found)
  | some a ↦ (record db { attempts = stamp id verifier now db.attempts }, ok tt)
]
