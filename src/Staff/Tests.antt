-- ===== src/Staff/Tests.antt =====
-- The theorems on internal/handler/comp_verify.go at a setter and an attempt of a climber.
use mathlib.Core.Path.{subst}
use routewerk.Prelude.{
  ℕ, ◌≡◌, refl, ◌⊎◌, inl, inr, String, true, false, [], ◌∷◌, Option, none, some, arith, keep,
}
use routewerk.Prelude.Int.{pos}
use routewerk.Prelude.Maps.{lookup}
use routewerk.Attempts.Types.{Attempt}
use routewerk.Attempts.Store.{get_by_id, find_attempt, key_taken, fits_columns, apply_action}
use routewerk.Attempts.Action.{ActionItem, undo, Conditions as ActionConditions, apply_one}
use routewerk.Attempts.Apply.{state_in, is_fresh, IsClean}
use routewerk.Authz.Middleware.{role_order, highest, find_location, location_rows, query_highest}
use routewerk.Rbac.Matrix.{any_reached, has_any_role}
use routewerk.Leaderboard.Queries.{find_competition}
use routewerk.Staff.Endpoints.{
  AttemptOverride, Directory, Conditions, World, Handled, find_registration, load_comp,
  require_comp_role, load_attempt_for_staff, override_loaded, override_attempt, verify_attempt,
}
use routewerk.Staff.Cases.{IsRefused, IsOverridden}
use routewerk.Staff.Override.{override_attempt-cases}
use routewerk.Staff.Verify.{IsVerified, IsAnswered, verify_attempt-cases}
use routewerk.Staff.Reverted.{override_attempt-undo}

abbrev parse_uuid : String → Option String
parse_uuid id = some id

abbrev no_faults : Conditions
no_faults = record {
  attempt_fails = false;
  registration_fails = false;
  competition_fails = false;
  membership_fails = false;
  verify_fails = false;
  refetch_fails = false;
  tx = record {
    begin_fails = false;
    upsert_fails = false;
    append_fails = false;
    commit_fails = false;
  };
  fresh_id = "fresh";
  now = 9;
}

abbrev directory : Directory
directory = record {
  registrations =
      record {
        id = "anna";
        competition_id = "c1";
        category_id = "k1";
        display_name = "Anna";
        bib_number = none;
        withdrawn_at = none;
        created_at = 1;
      }
      ∷ [];
  competitions =
      record { id = "c1"; location_id = "l1"; scoring_rule = "top_zone"; scoring_config = [] } ∷ [];
  memberships = record {
    locations = record { id = "l1"; org_id = "o1"; is_deleted = false } ∷ [];
    memberships =
        record {
          user_id = "sam";
          org_id = "o1";
          location_id = none;
          role = "setter";
          is_deleted = false;
        }
        ∷ [];
  };
}

abbrev attempt : Attempt
attempt = record {
  id = "a1";
  registration_id = "anna";
  problem_id = "p1";
  state = record {
    attempts = pos 3;
    zone_attempts = some (pos 1);
    zone_reached = true;
    top_reached = false;
    notes = none;
  };
  logged_at = 1;
  updated_at = 2;
  verified_by = none;
  verified_at = none;
}

abbrev world : World ℕ
world = record { db = record { attempts = attempt ∷ []; log = []; next_log_id = 1 }; cache = [] }

-- A top without the zone.
abbrev body : AttemptOverride
body = record {
  attempts = pos 1;
  zone_attempts = none;
  zone_reached = false;
  top_reached = true;
  notes = none;
}

abbrev handled : Handled ℕ String
handled = override_attempt parse_uuid "" no_faults directory "sam" "a1" world (some body)

override_attempt-cases_example :
    IsRefused parse_uuid "" no_faults directory "sam" "a1" world handled
    ⊎ IsOverridden parse_uuid "" no_faults directory "sam" "a1" world (some body) handled
override_attempt-cases_example =
    override_attempt-cases parse_uuid "" no_faults directory "sam" "a1" world (some body)

verify_attempt-cases_example :
    let h = verify_attempt parse_uuid "" no_faults directory "sam" "a1" world in
    IsRefused parse_uuid "" no_faults directory "sam" "a1" world h
    ⊎ ((v : IsVerified parse_uuid "" no_faults directory "sam" "a1" world h) × IsAnswered parse_uuid
          "" no_faults directory "sam" "a1" world v.att v.comp h)
verify_attempt-cases_example =
    verify_attempt-cases parse_uuid "" no_faults directory "sam" "a1" world

handled-announced : handled.is_announced ≡ true
unfolding override_attempt override_loaded load_attempt_for_staff get_by_id find_attempt
    find_registration load_comp find_competition require_comp_role query_highest location_rows
    find_location highest role_order keep has_any_role any_reached lookup apply_action key_taken
handled-announced = refl

overridden : IsOverridden parse_uuid "" no_faults directory "sam" "a1" world (some body) handled
overridden = elim override_attempt-cases_example [
  | inl r ↦ absurd (ground (arith, r.silent, handled-announced))
  | inr o ↦ o
]

abbrev undo_request : ActionItem
undo_request = record { idempotency_key = none; problem_id = "p1"; type = undo }

abbrev later : ActionConditions
later = record {
  replay_fails = false;
  get_fails = false;
  latest_fails = false;
  tx = no_faults.tx;
  reread_fails = false;
  fresh_id = "fresh";
  now = 10;
}

later-IsClean : IsClean later
later-IsClean = ground arith

no_key_taken : key_taken none handled.world.db.log ≡ false
unfolding key_taken
no_key_taken = refl

old-fits : fits_columns overridden.att.state ≡ true
unfolding get_by_id find_attempt
old-fits =
    let same : attempt ≡ overridden.att = ground (arith, overridden.found) in
    subst (λ (a : Attempt). fits_columns a.state ≡ true) same refl

override_attempt-undo_example :
    let r =
      apply_one later overridden.att.registration_id "anna" overridden.att.problem_id undo_request
        handled.world.db in
    (is_fresh r.1 ≡ true)
    × (state_in overridden.att.registration_id overridden.att.problem_id r.0 ≡ overridden.att.state)
override_attempt-undo_example =
    override_attempt-undo parse_uuid "" no_faults directory "sam" "a1" world (some body) overridden
      later "anna" undo_request tt refl later-IsClean no_key_taken old-fits
