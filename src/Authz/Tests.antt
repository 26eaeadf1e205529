-- ===== src/Authz/Tests.antt =====
-- The theorem on internal/middleware/authz.go at a user with two memberships.
use routewerk.Prelude.{String, str_eq, ◌≡◌, false, not, ◌&&◌, [], ◌∷◌, some}
use routewerk.Rbac.Matrix.{has_any_role}
use routewerk.Authz.Middleware.{MembershipRow, Tables, location_rows, require_location_role}
use routewerk.Authz.Highest.{any, is_passed, require_location_role-any}

abbrev membership : String → String → MembershipRow
membership location_id role = record {
  user_id = "anna";
  org_id = "o1";
  location_id = some location_id;
  role = role;
  is_deleted = false;
}

-- A climber at one location and a setter at another of the same organization.
abbrev tables : Tables
tables = record {
  locations =
      record { id = "l1"; org_id = "o1"; is_deleted = false }
      ∷ record { id = "l2"; org_id = "o1"; is_deleted = false }
      ∷ [];
  memberships = membership "l1" "climber" ∷ membership "l2" "setter" ∷ [];
}

require_location_role-any_example :
    is_passed (require_location_role false ("setter" ∷ []) "anna" "l1" tables) ≡ (
      not (str_eq "anna" "")
      && not (str_eq "l1" "")
      && not false
      && any
          (λ (m : MembershipRow). has_any_role m.role ("setter" ∷ []))
          (location_rows "anna" "l1" tables))
require_location_role-any_example =
    require_location_role-any false ("setter" ∷ []) "anna" "l1" tables
