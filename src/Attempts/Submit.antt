-- ===== src/Attempts/Submit.antt =====
-- SubmitActions (internal/handler/comp_action.go): the guards, the batch loop and the snapshots.
use mathlib.Core.List.{foldl}
use routewerk.Prelude.{
  ℕ, String, str_eq, Bool, true, false, not, List, [], ◌∷◌, ◌++◌, Option, none, some, ltb, ◌==◌,
  length, if◌then◌else◌,
}
use routewerk.Prelude.Maps.{lookup, insert}
use routewerk.Attempts.Types.{Db, attempt_not_found, ok, err, zero_state}
use routewerk.Attempts.Store.{get}
use routewerk.Attempts.Action.{
  ActionItem, ActionApplied, ActionRejected, StateView, event_closed, server_error, unknown_problem,
  wrong_competition, Outcome, applied, rejected, errored, Conditions, rejection, state_to_api,
  replay_if_cached, apply_one,
}

-- The parts of model.CompetitionEvent and model.CompetitionProblem that the handler reads.
pub record Event : Type 0 where
  pub id : String
  pub ends_at : ℕ

pub record Problem : Type 0 where
  pub id : String
  pub event_id : String

-- api.ActionsResponse
pub record Response : Type 0 where
  pub applied : List ActionApplied
  pub rejected : List ActionRejected
  pub state : List StateView

-- What the loop keeps: the tables, the response so far and the problems that were touched (a Go
-- map; here in the order of the first touch).
pub record LoopState : Type 0 where
  pub db : Db
  pub applied : List ActionApplied
  pub rejected : List ActionRejected
  pub touched : List String

-- The indexes that the handler builds, the registration, the caller, and the time at the start.
pub record Batch : Type 0 where
  pub registration_id : String
  pub actor : String
  pub now : ℕ
  pub event_by_id : List (String × Event)
  pub problem_by_id : List (String × Problem)

-- `m[x.ID] = x` for each in turn: a later one replaces an earlier one.
unfoldable pub index_events : List Event → List (String × Event)
unfolding insert
index_events events = foldl (λ m e. insert e.id e m) [] events

unfoldable pub index_problems : List Problem → List (String × Problem)
unfolding insert
index_problems problems = foldl (λ m p. insert p.id p m) [] problems

unfoldable pub touch : String → List String → List String
touch id [] = id ∷ []
touch id (t ∷ rest) = if str_eq t id then t ∷ rest else t ∷ touch id rest

abbrev pub add_applied : ActionApplied → String → LoopState → LoopState
add_applied a problem_id s = record s {
  applied = s.applied ++ a ∷ [];
  touched = touch problem_id s.touched;
}

abbrev pub add_rejected : ActionRejected → LoopState → LoopState
add_rejected r s = record s { rejected = s.rejected ++ r ∷ [] }

-- The state before the first round.
abbrev pub start : Db → LoopState
start db = record { db = db; applied = []; rejected = []; touched = [] }

-- The event of a problem, as `eventByID[problemEventID[problem.ID]]`.
abbrev pub event_of : Batch → Problem → Option Event
event_of b problem = elim (lookup problem.id b.problem_by_id) [
  | none ↦ none
  | some p ↦ lookup p.event_id b.event_by_id
]

abbrev pub record_outcome : ActionItem → Db × Outcome → LoopState → LoopState
record_outcome action (db, applied a) s = add_applied a action.problem_id (record s { db = db })
record_outcome action (db, rejected r) s = add_rejected r (record s { db = db })
record_outcome action (db, errored) s =
    add_rejected (rejection action server_error) (record s { db = db })

-- The part of a round behind the replay.
unfoldable pub apply_fresh : Batch → Conditions → ActionItem → LoopState → LoopState
apply_fresh b c action s = elim (lookup action.problem_id b.problem_by_id) [
  | none ↦ add_rejected (rejection action unknown_problem) s
  | some problem ↦ elim (event_of b problem) [
    | none ↦ add_rejected (rejection action wrong_competition) s
    | some event ↦
        if ltb event.ends_at b.now
        then add_rejected (rejection action event_closed) s
        else record_outcome action (apply_one c b.registration_id b.actor problem.id action s.db) s
  ]
]

abbrev pub cached : Conditions → ActionItem → Db → Option ActionApplied
cached c action db = elim action.idempotency_key [
  | none ↦ none
  | some key ↦ replay_if_cached c key action db
]

-- One round of the loop.
unfoldable pub submit_one : Batch → Conditions → ActionItem → LoopState → LoopState
submit_one b c action s = elim (cached c action s.db) [
  | some a ↦ add_applied a action.problem_id s
  | none ↦ apply_fresh b c action s
]

unfoldable pub submit_loop : Batch → List (Conditions × ActionItem) → LoopState → LoopState
submit_loop b [] s = s
submit_loop b ((c, action) ∷ rest) s = submit_loop b rest (submit_one b c action s)

-- The state of the touched problems, `fails` being the lookups that fail.
unfoldable pub snapshots : (String → Bool) → String → Db → List String → List StateView
unfolding get
snapshots fails registration_id db [] = []
snapshots fails registration_id db (id ∷ rest) =
    let others = snapshots fails registration_id db rest in
    if fails id then others else elim (get registration_id id db) [
      | ok a ↦ state_to_api a.problem_id a.state ∷ others
      | err e ↦ elim e [ attempt_not_found ↦ state_to_api id zero_state ∷ others | _ ↦ others ]
    ]

pub data CompStatus : Type 0 where
  draft open_ live closed archived : CompStatus

abbrev pub accepts_actions : CompStatus → Bool
accepts_actions open_ = true
accepts_actions live = true
accepts_actions _ = false

-- The outcome of a lookup that may find nothing or fail.
pub data Lookup (A : Type 0) : Type 0 where
  found : A → Lookup A
  missing : Lookup A
  broken : Lookup A

pub record Registration : Type 0 where
  pub id : String
  pub withdrawn_at : Option ℕ

abbrev pub is_active : Registration → Bool
is_active reg = elim reg.withdrawn_at [ none ↦ true | some t ↦ false ]

-- One request: what its parts parse to, what the lookups come to, and the conditions of each action.
pub record Request : Type 0 where
  pub comp_id_valid : Bool
  pub comp : Lookup CompStatus
  pub caller_id : String
  pub registration : Lookup Registration
  pub body : Option (List (Conditions × ActionItem))
  pub events : Option (List Event)
  pub problems : Option (List Problem)
  pub now : ℕ
  pub snapshot_fails : String → Bool

pub data Reply : Type 0 where
  bad_request not_found forbidden unauthorized internal_error : Reply
  success : Response → Reply

abbrev pub max_actions_per_batch : ℕ
max_actions_per_batch = 50

-- The loop and what follows it: the tables, the reply, and whether the leaderboard of the
-- competition is dropped from the cache and announced as changed.
unfoldable pub process :
    Request
    → Registration
    → List Event
    → List Problem
    → List (Conditions × ActionItem)
    → Db
    → Db × Reply × Bool
unfolding index_events index_problems submit_loop snapshots
process r reg events problems actions db =
    let b : Batch = record {
      registration_id = reg.id;
      actor = r.caller_id;
      now = r.now;
      event_by_id = index_events events;
      problem_by_id = index_problems problems;
    } in
    let s = submit_loop b actions (start db) in
    (
      s.db,
      success (record {
        applied = s.applied;
        rejected = s.rejected;
        state = snapshots r.snapshot_fails reg.id s.db s.touched;
      }),
      ltb 0 (length s.applied),
    )

-- The guards on the body and the two list queries.
unfoldable pub submit_for : Request → Registration → Db → Db × Reply × Bool
unfolding process
submit_for r reg db = elim r.body [
  | none ↦ (db, bad_request, false)
  | some actions ↦
      if length actions == 0
      then (db, bad_request, false)
      else if ltb max_actions_per_batch (length actions)
      then (db, bad_request, false)
      else elim r.events [
        | none ↦ (db, internal_error, false)
        | some events ↦ elim r.problems [
          | none ↦ (db, internal_error, false)
          | some problems ↦ process r reg events problems actions db
        ]
      ]
]

-- The guards on the registration.
unfoldable pub submit_as : Request → Db → Db × Reply × Bool
unfolding submit_for
submit_as r db = elim r.registration [
  | missing ↦ (db, forbidden, false)
  | broken ↦ (db, internal_error, false)
  | found reg ↦ if not (is_active reg) then (db, forbidden, false) else submit_for r reg db
]

-- SubmitActions
unfoldable pub submit_actions : Request → Db → Db × Reply × Bool
unfolding submit_as
submit_actions r db = if not r.comp_id_valid then (db, bad_request, false) else elim r.comp [
  | missing ↦ (db, not_found, false)
  | broken ↦ (db, internal_error, false)
  | found status ↦
      if not (accepts_actions status)
      then (db, forbidden, false)
      else if str_eq r.caller_id ""
      then (db, unauthorized, false)
      else submit_as r db
]
