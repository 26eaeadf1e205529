-- ===== src/Authz/Middleware.antt =====
-- Authorizer (internal/middleware/authz.go) over the tables locations and user_memberships. A query is
-- the meaning of its SQL; memberships that its ORDER BY leaves tied are taken in the order of the
-- table, and location ids are unique.
use routewerk.Prelude.{
  ℕ, String, str_eq, Bool, not, ◌&&◌, List, [], ◌∷◌, Option, none, some, ltb, keep, if◌then◌else◌,
}
use routewerk.Rbac.Matrix.{has_any_role}

pub record MembershipRow : Type 0 where
  pub user_id : String
  pub org_id : String
  pub location_id : Option String
  pub role : String
  pub is_deleted : Bool

pub record Location : Type 0 where
  pub id : String
  pub org_id : String
  pub is_deleted : Bool

pub record Tables : Type 0 where
  pub locations : List Location
  pub memberships : List MembershipRow

-- middleware.Membership
pub record Membership : Type 0 where
  pub org_id : String
  pub location_id : Option String
  pub role : String

-- `CASE role WHEN … END`
unfoldable pub role_order : String → ℕ
role_order role =
    if str_eq role "org_admin"
    then 5
    else if str_eq role "gym_manager"
    then 4
    else if str_eq role "head_setter"
    then 3
    else if str_eq role "setter"
    then 2
    else if str_eq role "climber"
    then 1
    else 0

-- `user_id = $1 AND org_id = … AND deleted_at IS NULL`
abbrev pub is_member : String → String → MembershipRow → Bool
is_member user_id org_id m = str_eq m.user_id user_id && str_eq m.org_id org_id && not m.is_deleted

-- `ORDER BY … DESC LIMIT 1`
unfoldable pub highest : List MembershipRow → Option MembershipRow
highest [] = none
highest (m ∷ rest) =
    let best = highest rest in
    elim best [
      | none ↦ some m
      | some b ↦ if ltb (role_order m.role) (role_order b.role) then some b else some m
    ]

abbrev pub membership_of : MembershipRow → Membership
membership_of m = record { org_id = m.org_id; location_id = m.location_id; role = m.role }

-- `l.id = $2 AND l.deleted_at IS NULL`
unfoldable pub find_location : String → List Location → Option Location
find_location id [] = none
find_location id (l ∷ rest) =
    let later = find_location id rest in
    if str_eq l.id id && not l.is_deleted then some l else later

-- The rows that the query for an organization finds, and those that the join for a location finds.
abbrev pub org_rows : String → String → Tables → List MembershipRow
org_rows user_id org_id t = keep (is_member user_id org_id) t.memberships

unfoldable pub location_rows : String → String → Tables → List MembershipRow
location_rows user_id location_id t = elim (find_location location_id t.locations) [
  | none ↦ []
  | some l ↦ org_rows user_id l.org_id t
]

-- A query for one row; `none` is an error, the missing row included.
unfoldable pub query_highest : Bool → List MembershipRow → Option Membership
query_highest query_fails rows =
    if query_fails
    then none
    else elim (highest rows) [ none ↦ none | some m ↦ some (membership_of m) ]

-- LookupLocationMembership
abbrev pub lookup_location_membership : Bool → String → String → Tables → Option Membership
lookup_location_membership query_fails user_id location_id t =
    query_highest query_fails (location_rows user_id location_id t)

-- Passed on to the next handler with the membership, or answered with a status.
pub data Check : Type 0 where
  passed : Membership → Check
  refused : ℕ → String → Check

unfoldable pub resolve_org_membership : Bool → String → String → Tables → Check
resolve_org_membership query_fails user_id org_id t =
    if str_eq user_id ""
    then refused 401 "authentication required"
    else if str_eq org_id ""
    then refused 400 "missing org ID"
    else elim (query_highest query_fails (org_rows user_id org_id t)) [
      | none ↦ refused 404 "organization not found"
      | some m ↦ passed m
    ]

unfoldable pub resolve_location_membership : Bool → String → String → Tables → Check
resolve_location_membership query_fails user_id location_id t =
    if str_eq user_id ""
    then refused 401 "authentication required"
    else if str_eq location_id ""
    then refused 400 "missing location ID"
    else elim (lookup_location_membership query_fails user_id location_id t) [
      | none ↦ refused 404 "location not found"
      | some m ↦ passed m
    ]

-- The test of RequireOrgRole and RequireLocationRole after the membership is resolved.
abbrev pub with_role : List String → Check → Check
with_role roles (refused status message) = refused status message
with_role roles (passed m) =
    if not (has_any_role m.role roles) then refused 403 "insufficient permissions" else passed m

-- RequireOrgMember and RequireLocationMember
abbrev pub require_org_member : Bool → String → String → Tables → Check
require_org_member query_fails user_id org_id t =
    resolve_org_membership query_fails user_id org_id t

abbrev pub require_location_member : Bool → String → String → Tables → Check
require_location_member query_fails user_id location_id t =
    resolve_location_membership query_fails user_id location_id t

abbrev pub require_org_role : Bool → List String → String → String → Tables → Check
require_org_role query_fails roles user_id org_id t =
    with_role roles (resolve_org_membership query_fails user_id org_id t)

abbrev pub require_location_role : Bool → List String → String → String → Tables → Check
require_location_role query_fails roles user_id location_id t =
    with_role roles (resolve_location_membership query_fails user_id location_id t)
