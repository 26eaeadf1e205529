-- ===== src/Attempts/Types.antt =====
-- The rows of competition_attempts and competition_attempt_log (internal/model/competition.go and
-- migration 000034), and the inputs and errors of their repository.
use routewerk.Prelude.{ℕ, String, Bool, false, List, Option, none}
use routewerk.Prelude.Int.{ℤ, pos}

-- repository.AttemptState, the part of a row that actions replace.
pub record AttemptState : Type 0 where
  pub attempts : ℤ
  pub zone_attempts : Option ℤ
  pub zone_reached : Bool
  pub top_reached : Bool
  pub notes : Option String

-- `AttemptState{}`
abbrev pub zero_state : AttemptState
zero_state = record {
  attempts = pos 0;
  zone_attempts = none;
  zone_reached = false;
  top_reached = false;
  notes = none;
}

-- A jsonb column: absent, what json.Marshal wrote of a state, or text that does not parse as one.
pub data Snapshot : Type 0 where
  absent : Snapshot
  holds : AttemptState → Snapshot
  malformed : Snapshot

-- model.CompetitionAttempt; times are numbers.
pub record Attempt : Type 0 where
  pub id : String
  pub registration_id : String
  pub problem_id : String
  pub state : AttemptState
  pub open state use *
  pub logged_at : ℕ
  pub updated_at : ℕ
  pub verified_by : Option String
  pub verified_at : Option ℕ

-- model.CompetitionAttemptLog
pub record AttemptLog : Type 0 where
  pub id : ℕ
  pub attempt_id : String
  pub actor_user_id : Option String
  pub action : String
  pub before : Snapshot
  pub after : Snapshot
  pub idempotency_key : Option String
  pub at : ℕ

-- The two tables, the log newest row first, and the sequence of its bigserial id.
pub record Db : Type 0 where
  pub attempts : List Attempt
  pub log : List AttemptLog
  pub next_log_id : ℕ

pub data RepoError : Type 0 where
  attempt_not_found attempt_log_not_found idempotency_key_exists failed : RepoError

pub data Result {ℓ} (A : Type ℓ) : Type ℓ where
  ok : A → Result A
  err : RepoError → Result A

-- repository.ApplyActionInput
pub record ApplyActionInput : Type 0 where
  pub registration_id : String
  pub problem_id : String
  pub new_state : AttemptState
  pub action : String
  pub actor_user_id : Option String
  pub idempotency_key : Option String
  pub before_json : Snapshot
  pub after_json : Snapshot

-- Which statements of one transaction the database fails, for reasons outside this model.
pub record Faults : Type 0 where
  pub begin_fails : Bool
  pub upsert_fails : Bool
  pub append_fails : Bool
  pub commit_fails : Bool
