-- ===== src/Staff/Endpoints.antt =====
-- VerifyAttempt and OverrideAttempt (internal/handler/comp_verify.go), with loadComp and
-- requireCompRole, which other handlers share.
use routewerk.Prelude.{
  ℕ, String, str_eq, Bool, true, false, not, List, [], ◌∷◌, Option, none, some, if◌then◌else◌,
}
use routewerk.Prelude.Int.{ℤ, pos, ltb_ℤ}
use routewerk.Attempts.Types.{
  AttemptState, holds, Attempt, AttemptLog, Db, attempt_not_found, Result, ok, err,
  ApplyActionInput, Faults,
}
use routewerk.Attempts.Store.{get_by_id, verify, apply_action}
use routewerk.Authz.Middleware.{Tables as Memberships, lookup_location_membership}
use routewerk.Rbac.Matrix.{has_any_role, role_setter}
use routewerk.Leaderboard.Types.{Competition, Registration}
use routewerk.Leaderboard.Queries.{find_competition}
use routewerk.Leaderboard.BoardCache.{LeaderboardCache, invalidate}

-- api.AttemptOverride
pub record AttemptOverride : Type 0 where
  pub attempts : ℤ
  pub zone_attempts : Option ℤ
  pub zone_reached : Bool
  pub top_reached : Bool
  pub notes : Option String

-- What the two requests read besides the attempts.
pub record Directory : Type 0 where
  pub registrations : List Registration
  pub competitions : List Competition
  pub memberships : Memberships

-- The queries that fail, and the id and time of a write.
pub record Conditions : Type 0 where
  pub attempt_fails : Bool
  pub registration_fails : Bool
  pub competition_fails : Bool
  pub membership_fails : Bool
  pub verify_fails : Bool
  pub refetch_fails : Bool
  pub tx : Faults
  pub fresh_id : String
  pub now : ℕ

-- The tables of attempts and the cache of boards.
pub record World (B : Type 0) : Type 0 where
  pub db : Db
  pub cache : LeaderboardCache B

-- api.CompetitionAttempt; `U` stands for uuid.UUID.
pub record AttemptView (U : Type 0) : Type 0 where
  pub id : U
  pub registration_id : U
  pub problem_id : U
  pub state : AttemptState
  pub logged_at : ℕ
  pub updated_at : ℕ
  pub verified_by : Option U
  pub verified_at : Option ℕ

pub data Answer (U : Type 0) : Type 0 where
  ok_attempt : AttemptView U → Answer U
  error : ℕ → String → Answer U

-- What a request leaves: the world, whether a change of the board is announced, and the answer.
pub record Handled (B U : Type 0) : Type 0 where
  pub world : World B
  pub is_announced : Bool
  pub answer : Answer U

abbrev pub internal_error : {U : Type 0} → Answer U
internal_error = error 500 "internal error"

-- CompetitionRegistrationRepo.GetByID
unfoldable pub find_registration : String → List Registration → Option Registration
find_registration id [] = none
find_registration id (r ∷ rest) =
    let later = find_registration id rest in if str_eq r.id id then some r else later

-- Found, or answered with a status.
pub data Loaded {ℓ} (A : Type ℓ) : Type ℓ where
  loaded : A → Loaded A
  stopped : ℕ → String → Loaded A

unfoldable pub load_comp : Conditions → Directory → String → Loaded Competition
load_comp c dir competition_id =
    if c.competition_fails
    then stopped 500 "internal error"
    else elim (find_competition competition_id dir.competitions) [
      | none ↦ stopped 404 "competition not found"
      | some comp ↦ loaded comp
    ]

unfoldable pub require_comp_role :
    Conditions → Directory → String → Competition → List String → Loaded (Unit {0})
require_comp_role c dir user_id comp roles =
    if str_eq user_id ""
    then stopped 401 "authentication required"
    else elim (lookup_location_membership c.membership_fails user_id comp.location_id
        dir.memberships) [
          | none ↦ stopped 403 "not a member of this location"
          | some m ↦
              if not (has_any_role m.role roles) then stopped 403 "insufficient role" else loaded tt
        ]

abbrev pub view_of : {U : Type 0} → (String → Option U) → U → Attempt → AttemptView U
view_of parse_uuid nil_uuid a =
    let uuid_of : String → _ = λ id. elim (parse_uuid id) [ none ↦ nil_uuid | some u ↦ u ] in
    record {
      id = uuid_of a.id;
      registration_id = uuid_of a.registration_id;
      problem_id = uuid_of a.problem_id;
      state = a.state;
      logged_at = a.logged_at;
      updated_at = a.updated_at;
      verified_by = elim a.verified_by [ none ↦ none | some user ↦ parse_uuid user ];
      verified_at = a.verified_at;
    }

-- `parse_uuid` is uuid.Parse, and `nil_uuid` what it leaves beside an error.
module _ {B U : Type 0} (parse_uuid : String → Option U) (nil_uuid : U) (c : Conditions)
    (dir : Directory) (actor attempt_id : String) (w : World B) where
  abbrev pub is_uuid : String → Bool
  is_uuid id = elim (parse_uuid id) [ none ↦ false | some u ↦ true ]

  -- attemptToAPI
  abbrev pub attempt_to_api : Attempt → AttemptView U
  attempt_to_api a = view_of parse_uuid nil_uuid a

  abbrev pub rejected_with : ℕ → String → Handled B U
  rejected_with status message = record {
    world = w;
    is_announced = false;
    answer = error status message;
  }

  -- The competition of an attempt's registration, and the role of the caller there.
  abbrev pub load_comp_for_staff : String → Attempt → Loaded (Attempt × Competition)
  load_comp_for_staff role att =
      if c.registration_fails
      then stopped 500 "internal error"
      else elim (find_registration att.registration_id dir.registrations) [
        | none ↦ stopped 500 "internal error"
        | some reg ↦ elim (load_comp c dir reg.competition_id) [
          | stopped status message ↦ stopped status message
          | loaded comp ↦ elim (require_comp_role c dir actor comp (role ∷ [])) [
            | stopped status message ↦ stopped status message
            | loaded u ↦ loaded (att, comp)
          ]
        ]
      ]

  unfoldable pub load_attempt_for_staff : String → Loaded (Attempt × Competition)
  load_attempt_for_staff role =
      if not (is_uuid attempt_id)
      then stopped 400 "invalid attempt id"
      else if c.attempt_fails
      then stopped 500 "internal error"
      else elim (get_by_id attempt_id w.db) [
        | err e ↦ elim e [
          | attempt_not_found ↦ stopped 404 "attempt not found"
          | _ ↦ stopped 500 "internal error"
        ]
        | ok att ↦ load_comp_for_staff role att
      ]

  -- The part of VerifyAttempt after the attempt is loaded.
  unfoldable pub verify_loaded : Attempt → Competition → Handled B U
  verify_loaded att comp =
      let (db', result) = verify att.id actor c.now w.db in
      let unsent : Handled B U = record {
        world = record w { db = db' };
        is_announced = false;
        answer = internal_error;
      } in
      if c.verify_fails then rejected_with 500 "internal error" else elim result [
        | err e ↦ unsent
        | ok u ↦ if c.refetch_fails then unsent else elim (get_by_id att.id db') [
          | err e ↦ unsent
          | ok updated ↦ record {
            world = record { db = db'; cache = invalidate comp.id w.cache };
            is_announced = true;
            answer = ok_attempt (attempt_to_api updated);
          }
        ]
      ]

  unfoldable pub verify_attempt : Handled B U
  verify_attempt = elim (load_attempt_for_staff role_setter) [
    | stopped status message ↦ rejected_with status message
    | loaded found ↦ verify_loaded found.0 found.1
  ]

  abbrev pub state_of : AttemptOverride → AttemptState
  state_of body = record {
    attempts = body.attempts;
    zone_attempts = body.zone_attempts;
    zone_reached = body.zone_reached;
    top_reached = body.top_reached;
    notes = body.notes;
  }

  abbrev pub override_input : Attempt → AttemptOverride → ApplyActionInput
  override_input att body = record {
    registration_id = att.registration_id;
    problem_id = att.problem_id;
    new_state = state_of body;
    action = "override";
    actor_user_id = some actor;
    idempotency_key = none;
    before_json = holds att.state;
    after_json = holds (state_of body);
  }

  abbrev pub has_negative_zone : AttemptOverride → Bool
  has_negative_zone body = elim body.zone_attempts [ none ↦ false | some z ↦ ltb_ℤ z (pos 0) ]

  abbrev pub after_write : Competition → Db × Result (Attempt × AttemptLog) → Handled B U
  after_write comp (db', err e) = record {
    world = record w { db = db' };
    is_announced = false;
    answer = internal_error;
  }
  after_write comp (db', ok (updated, entry)) = record {
    world = record { db = db'; cache = invalidate comp.id w.cache };
    is_announced = true;
    answer = ok_attempt (attempt_to_api updated);
  }

  -- The part of OverrideAttempt after the attempt is loaded; a body that does not decode is `none`.
  unfoldable pub override_loaded : Attempt → Competition → Option AttemptOverride → Handled B U
  override_loaded att comp none = rejected_with 400 "invalid request body"
  override_loaded att comp (some body) =
      if ltb_ℤ body.attempts (pos 0)
      then rejected_with 400 "attempts must be >= 0"
      else if has_negative_zone body
      then rejected_with 400 "zone_attempts must be >= 0"
      else after_write comp (apply_action c.tx c.fresh_id c.now (override_input att body) w.db)

  unfoldable pub override_attempt : Option AttemptOverride → Handled B U
  override_attempt body = elim (load_attempt_for_staff role_setter) [
    | stopped status message ↦ rejected_with status message
    | loaded found ↦ override_loaded found.0 found.1 body
  ]
