-- ===== src/Attempts/Rows.antt =====
-- What ApplyAction (internal/repository/competition_attempt.go) does to the two tables.
use routewerk.Prelude.{
  ℕ, ◌≤◌, ◌<◌, ◌≡◌, refl, ◌⊎◌, inl, inr, String, str_eq, eq_iff, false, ◌&&◌, List, [], ◌∷◌, none,
  some, arith, All, Bool-cases,
}
use routewerk.Attempts.Types.{Attempt, AttemptLog, Db, ApplyActionInput}
use routewerk.Attempts.Store.{is_pair, find_attempt, is_later, latest_of, upsert}

pub find_attempt-upsert :
    (fresh_id : String) (now : ℕ) (i : ApplyActionInput) (rows : List Attempt)
    → find_attempt (is_pair i.registration_id i.problem_id) (upsert fresh_id now i rows).0
      ≡ some (upsert fresh_id now i rows).1
unfolding find_attempt upsert
find_attempt-upsert fresh_id now i [] =
    ground (arith, eq_iff i.registration_id i.registration_id, eq_iff i.problem_id i.problem_id)
find_attempt-upsert fresh_id now i (a ∷ rows) =
    ground (arith, find_attempt-upsert fresh_id now i rows)

pub find_attempt-upsert_ne :
    (fresh_id : String) (now : ℕ) (i : ApplyActionInput) (rows : List Attempt) (r p : String)
    → (str_eq i.registration_id r && str_eq i.problem_id p) ≡ false
    → find_attempt (is_pair r p) (upsert fresh_id now i rows).0 ≡ find_attempt (is_pair r p) rows
unfolding find_attempt upsert
find_attempt-upsert_ne fresh_id now i [] r p h = ground arith
find_attempt-upsert_ne fresh_id now i (a ∷ rows) r p h = ground (
  arith,
  find_attempt-upsert_ne fresh_id now i rows r p h,
  eq_iff a.registration_id r,
  eq_iff a.problem_id p,
  eq_iff i.registration_id r,
  eq_iff i.problem_id p,
  eq_iff a.registration_id i.registration_id,
  eq_iff a.problem_id i.problem_id,
)

pub state-upsert :
    (fresh_id : String) (now : ℕ) (i : ApplyActionInput) (rows : List Attempt)
    → (upsert fresh_id now i rows).1.state ≡ i.new_state
unfolding upsert
state-upsert fresh_id now i [] = refl
state-upsert fresh_id now i (a ∷ rows) = ground (arith, state-upsert fresh_id now i rows)

-- The log's times are past and its ids lie below the sequence.
abbrev pub IsClocked : ℕ → Db → Type 0
IsClocked now db = All (λ (l : AttemptLog). (l.at ≤ now) × (l.id < db.next_log_id)) db.log

latest_of-IsClocked :
    (now n : ℕ) (id : String) (log : List AttemptLog)
    → All (λ (l : AttemptLog). (l.at ≤ now) × (l.id < n)) log
    → (latest_of id log ≡ none)
      ⊎ ((l : AttemptLog) × (latest_of id log ≡ some l) × (l.at ≤ now) × (l.id < n))
unfolding latest_of
latest_of-IsClocked now n id [] h = inl refl
latest_of-IsClocked now n id (l ∷ log) h = elim (latest_of-IsClocked now n id log h.1) [
  | inl e ↦ elim (Bool-cases (str_eq l.attempt_id id)) [
    | inl t ↦ inr (l, rw (e, t), h.0.0, h.0.1)
    | inr t ↦ inl (rw (e, t))
  ]
  | inr (m, e, b, d) ↦ elim (Bool-cases (str_eq l.attempt_id id)) [
    | inl t ↦ elim (Bool-cases (is_later m l)) [
      | inl k ↦ inr (m, ground arith, b, d)
      | inr k ↦ inr (l, ground arith, h.0.0, h.0.1)
    ]
    | inr t ↦ inr (m, ground arith, b, d)
  ]
]

-- An entry written now is the latest of its attempt.
pub latest_of-new :
    (now : ℕ) (db : Db) (l : AttemptLog)
    → IsClocked now db
    → l.at ≡ now
    → l.id ≡ db.next_log_id
    → latest_of l.attempt_id (l ∷ db.log) ≡ some l
unfolding latest_of
latest_of-new now db l h e k = elim (latest_of-IsClocked now db.next_log_id l.attempt_id db.log h) [
  | inl n ↦ ground (arith, eq_iff l.attempt_id l.attempt_id)
  | inr (m, n, b, d) ↦ ground (arith, eq_iff l.attempt_id l.attempt_id)
]
