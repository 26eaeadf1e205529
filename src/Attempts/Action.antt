-- ===== src/Attempts/Action.antt =====
-- The climber's actions (internal/handler/comp_action.go): computeNewState and applyOne.
use routewerk.Prelude.{ℕ, String, Bool, true, false, not, Option, none, some, if◌then◌else◌}
use routewerk.Prelude.Int.{ℤ, pos, add64, ltb_ℤ}
use routewerk.Attempts.Types.{
  AttemptState, zero_state, Snapshot, absent, holds, malformed, Attempt, AttemptLog, Db,
  attempt_not_found, attempt_log_not_found, idempotency_key_exists, failed, Result, ok, err,
  ApplyActionInput, Faults,
}
use routewerk.Attempts.Store.{get, get_log_by_idempotency_key, latest_log_for_attempt, apply_action}

-- api.ActionType, a string; `other` is any value that is not one of the five.
pub data ActionType : Type 0 where
  increment zone top undo reset : ActionType
  other : String → ActionType

-- The string that is logged.
abbrev pub action_name : ActionType → String
action_name increment = "increment"
action_name zone = "zone"
action_name top = "top"
action_name undo = "undo"
action_name reset = "reset"
action_name (other s) = s

pub record ActionItem : Type 0 where
  pub idempotency_key : Option String
  pub problem_id : String
  pub type : ActionType

-- api.AttemptState
pub record StateView : Type 0 where
  pub problem_id : String
  pub attempts : ℤ
  pub zone_attempts : Option ℤ
  pub zone_reached : Bool
  pub top_reached : Bool

pub record ActionApplied : Type 0 where
  pub idempotency_key : Option String
  pub problem_id : String
  pub state : StateView
  pub replayed : Bool

pub data Reason : Type 0 where
  event_closed no_history server_error unknown_problem wrong_competition : Reason

pub record ActionRejected : Type 0 where
  pub idempotency_key : Option String
  pub problem_id : String
  pub reason : Reason

-- What one action comes to: applied, rejected, or an error of the repository.
pub data Outcome : Type 0 where
  applied : ActionApplied → Outcome
  rejected : ActionRejected → Outcome
  errored : Outcome

-- `if next.Attempts < 1 { next.Attempts = 1 }`
abbrev pub at_least_one : ℤ → ℤ
at_least_one n = if ltb_ℤ n (pos 1) then pos 1 else n

-- The new state, or `none` where the code returns an error.
unfoldable pub compute_new_state : AttemptState → ActionType → Option AttemptState
compute_new_state current increment =
    some (record current { attempts = add64 current.attempts (pos 1) })
compute_new_state current zone =
    let n = at_least_one current.attempts in
    some (record current { attempts = n; zone_attempts = some n; zone_reached = true })
compute_new_state current top =
    let n = at_least_one current.attempts in
    some (
      if not current.zone_reached
      then record current {
        attempts = n;
        zone_attempts = some n;
        zone_reached = true;
        top_reached = true;
      }
      else record current { attempts = n; top_reached = true })
compute_new_state current reset = some zero_state
compute_new_state current undo = none
compute_new_state current (other s) = none

-- stateToAPI and attemptToAPIState
abbrev pub state_to_api : String → AttemptState → StateView
state_to_api problem_id s = record {
  problem_id = problem_id;
  attempts = s.attempts;
  zone_attempts = s.zone_attempts;
  zone_reached = s.zone_reached;
  top_reached = s.top_reached;
}

abbrev pub rejection : ActionItem → Reason → ActionRejected
rejection action reason = record {
  idempotency_key = action.idempotency_key;
  problem_id = action.problem_id;
  reason = reason;
}

-- What surrounds one action: the queries that fail, the id and the time of a new row.
pub record Conditions : Type 0 where
  pub replay_fails : Bool
  pub get_fails : Bool
  pub latest_fails : Bool
  pub tx : Faults
  pub reread_fails : Bool
  pub fresh_id : String
  pub now : ℕ

-- json.Unmarshal of a snapshot whose error is ignored: what does not parse leaves the zero state.
abbrev pub cached_state : Snapshot → AttemptState
cached_state absent = zero_state
cached_state (holds s) = s
cached_state malformed = zero_state

abbrev pub replayed_of : ActionItem → AttemptLog → ActionApplied
replayed_of action entry = record {
  idempotency_key = action.idempotency_key;
  problem_id = action.problem_id;
  state = state_to_api action.problem_id (cached_state entry.after);
  replayed = true;
}

-- replayIfCached, for an action with a key.
unfoldable pub replay_if_cached : Conditions → String → ActionItem → Db → Option ActionApplied
replay_if_cached c key action db =
    if c.replay_fails then none else elim (get_log_by_idempotency_key key db) [
      | err e ↦ none
      | ok entry ↦ some (replayed_of action entry)
    ]

-- A step of applyOne that may end it.
pub data Step : Type 0 where
  done : Outcome → Step
  next : AttemptState → Step

-- The undo branch: restore what the latest log entry of the attempt has as `before`.
unfoldable pub restore_latest : Conditions → ActionItem → Attempt → Db → Step
restore_latest c action current db =
    if c.latest_fails then done errored else elim (latest_log_for_attempt current.id db) [
      | err e ↦ elim e [
        | attempt_log_not_found ↦ done (rejected (rejection action no_history))
        | _ ↦ done errored
      ]
      | ok latest ↦ elim latest.before [
        | absent ↦ next zero_state
        | holds s ↦ next s
        | malformed ↦ done errored
      ]
    ]

-- The state of the row that Get found; a missing row counts as the zero state.
abbrev pub current_state : Option Attempt → AttemptState
current_state none = zero_state
current_state (some a) = a.state

abbrev pub is_undo : ActionType → Bool
is_undo undo = true
is_undo _ = false

-- `current` is the row of the attempt, if there is one.
unfoldable pub new_state : Conditions → ActionItem → Option Attempt → Db → Step
unfolding restore_latest compute_new_state
new_state c action current db =
    if is_undo action.type
    then elim current [
      | none ↦ done (rejected (rejection action no_history))
      | some a ↦ restore_latest c action a db
    ]
    else elim (compute_new_state (current_state current) action.type) [
      | none ↦ done (rejected (rejection action server_error))
      | some s ↦ next s
    ]

abbrev pub input_of :
    String → String → ActionItem → String → AttemptState → AttemptState → ApplyActionInput
input_of registration_id actor action problem_id before after = record {
  registration_id = registration_id;
  problem_id = problem_id;
  new_state = after;
  action = action_name action.type;
  actor_user_id = some actor;
  idempotency_key = action.idempotency_key;
  before_json = holds before;
  after_json = holds after;
}

-- The reply to a key that a concurrent retry has used: replay from the log.
unfoldable pub replay_collision : Conditions → ActionItem → Db → Outcome
replay_collision c action db = elim action.idempotency_key [
  | none ↦ errored
  | some key ↦ if c.reread_fails then errored else elim (get_log_by_idempotency_key key db) [
    | err e ↦ errored
    | ok entry ↦ applied (replayed_of action entry)
  ]
]

-- The reply to the outcome of ApplyAction.
unfoldable pub answer : Conditions → ActionItem → Db × Result (Attempt × AttemptLog) → Db × Outcome
answer c action (db, ok (a, l)) = (
  db,
  applied (record {
    idempotency_key = action.idempotency_key;
    problem_id = action.problem_id;
    state = state_to_api a.problem_id a.state;
    replayed = false;
  }),
)
answer c action (db, err idempotency_key_exists) = (db, replay_collision c action db)
answer c action (db, err attempt_not_found) = (db, errored)
answer c action (db, err attempt_log_not_found) = (db, errored)
answer c action (db, err failed) = (db, errored)

-- The rest of applyOne, from the row that Get found.
unfoldable pub apply_to :
    Conditions → String → String → String → ActionItem → Option Attempt → Db → Db × Outcome
apply_to c registration_id actor problem_id action current db =
    elim (new_state c action current db) [
      | done o ↦ (db, o)
      | next s ↦ answer c action (
          apply_action c.tx c.fresh_id c.now
            (input_of registration_id actor action problem_id (current_state current) s) db)
    ]

-- applyOne
unfoldable pub apply_one : Conditions → String → String → String → ActionItem → Db → Db × Outcome
apply_one c registration_id actor problem_id action db =
    if c.get_fails then (db, errored) else elim (get registration_id problem_id db) [
      | ok a ↦ apply_to c registration_id actor problem_id action (some a) db
      | err e ↦ elim e [
        | attempt_not_found ↦ apply_to c registration_id actor problem_id action none db
        | _ ↦ (db, errored)
      ]
    ]
