-- ===== src/Authz/Highest.antt =====
-- The highest membership decides (internal/middleware/authz.go): a check of roles passes exactly if
-- some membership of the user would.
use mathlib.Core.Path.{subst}
use routewerk.Prelude.{
  ℕ, ◌≤◌, ◌≡◌, refl, ◌⊎◌, inl, inr, String, str_eq, eq_iff, Bool, true, false, not, ◌&&◌, ◌||◌,
  List, [], ◌∷◌, Option, none, some, arith, ltb, ltb→lt, Bool-cases, Option-cases,
}
use routewerk.Prelude.Maps.{lookup}
use routewerk.Rbac.Matrix.{ranks, any_reached, has_any_role, rank_value}
use routewerk.Rbac.Access.{lookup-All}
use routewerk.Authz.Middleware.{
  MembershipRow, Tables, Membership, role_order, highest, org_rows, location_rows, query_highest,
  Check, passed, refused, resolve_org_membership, resolve_location_membership, require_org_role,
  require_location_role,
}

-- Some member passes a Boolean test.
unfoldable pub any {ℓ} : {A : Type ℓ} → (A → Bool) → List A → Bool
any p [] = false
any p (x ∷ xs) = let later = any p xs in p x || later

abbrev IsOrNot : String → String → Type 0
IsOrNot role c = (c ≡ role) ⊎ ((str_eq role c ≡ false) × (str_eq c role ≡ false))

IsOrNot-cases : (role c : String) → IsOrNot role c
IsOrNot-cases role c = elim (Bool-cases (str_eq role c)) [
  | inl e ↦ inl (ground (arith, e, eq_iff role c))
  | inr e ↦ inr (e, ground (arith, e, eq_iff role c, eq_iff c role))
]

-- The CASE of the query orders the roles as the package rbac ranks them.
role_order-rank_value : (role : String) → role_order role ≡ rank_value role
unfolding role_order rank_value lookup
role_order-rank_value role = elim (IsOrNot-cases role "org_admin") [
  | inl e ↦ of_known "org_admin" refl e
  | inr o ↦ elim (IsOrNot-cases role "gym_manager") [
    | inl e ↦ of_known "gym_manager" refl e
    | inr g ↦ elim (IsOrNot-cases role "head_setter") [
      | inl e ↦ of_known "head_setter" refl e
      | inr h ↦ elim (IsOrNot-cases role "setter") [
        | inl e ↦ of_known "setter" refl e
        | inr s ↦ elim (IsOrNot-cases role "climber") [
          | inl e ↦ of_known "climber" refl e
          | inr c ↦ ground (arith, o.0, g.0, h.0, s.0, c.0, o.1, g.1, h.1, s.1, c.1)
        ]
      ]
    ]
  ]
]
  where
    of_known :
        (c : String) → role_order c ≡ rank_value c → c ≡ role → role_order role ≡ rank_value role
    of_known c k e = subst (λ r. role_order r ≡ rank_value r) e k

any_reached_mono :
    (m n : ℕ) (roles : List String)
    → m ≤ n
    → any_reached m roles ≡ true
    → any_reached n roles ≡ true
unfolding any_reached
any_reached_mono m n [] l e = e
any_reached_mono m n (r ∷ rest) l e = ground (arith, any_reached_mono m n rest l)

ranks-positive : (role : String) (n : ℕ) → lookup role ranks ≡ some n → 1 ≤ n
ranks-positive role n e = lookup-All (λ m. 1 ≤ m) role ranks n (ground arith) e

-- A higher role has what a lower one has.
has_any_role_mono :
    (a b : String) (roles : List String)
    → role_order a ≤ role_order b
    → has_any_role a roles ≡ true
    → has_any_role b roles ≡ true
unfolding has_any_role rank_value
has_any_role_mono a b roles l e =
    let l' : rank_value a ≤ rank_value b =
      omega (arith, l, role_order-rank_value a, role_order-rank_value b) in
    elim (Option-cases (lookup a ranks)) [
      | inl n ↦ absurd (ground (arith, e, n))
      | inr (m, n) ↦ elim (Option-cases (lookup b ranks)) [
        | inl k ↦ absurd (ground (arith, l', n, k, ranks-positive a m n))
        | inr (m', k) ↦
            ground (arith, e, n, k, any_reached_mono m m' roles (ground (arith, l', n, k)))
      ]
    ]

-- Whether the highest of the rows has one of the roles.
abbrev highest_has : List String → Option MembershipRow → Bool
highest_has roles none = false
highest_has roles (some m) = has_any_role m.role roles

highest-any :
    (roles : List String) (rows : List MembershipRow)
    → highest_has roles (highest rows) ≡ any (λ m. has_any_role m.role roles) rows
unfolding highest any
highest-any roles [] = refl
highest-any roles (m ∷ rest) =
    let later = highest-any roles rest in
    elim (Option-cases (highest rest)) [
      | inl n ↦ ground (arith, n, later)
      | inr (b, n) ↦ elim (Bool-cases (ltb (role_order m.role) (role_order b.role))) [
        | inl x ↦ elim (Bool-cases (has_any_role m.role roles)) [
          | inl y ↦ ground (
            arith,
            n,
            later,
            x,
            y,
            has_any_role_mono m.role b.role roles
                (omega (arith, ltb→lt (role_order m.role) (role_order b.role) x)) y,
          )
          | inr y ↦ ground (arith, n, later, x, y)
        ]
        | inr x ↦ elim (Bool-cases (has_any_role b.role roles)) [
          | inl y ↦
              ground
                (arith, n, later, x, y, has_any_role_mono b.role m.role roles (ground (arith, x)) y)
          | inr y ↦ ground (arith, n, later, x, y)
        ]
      ]
    ]

-- A membership that the query finds has a role only if some row does.
pub query_highest-any :
    (query_fails : Bool) (roles : List String) (rows : List MembershipRow) (m : Membership)
    → query_highest query_fails rows ≡ some m
    → has_any_role m.role roles ≡ true
    → any (λ r. has_any_role r.role roles) rows ≡ true
unfolding query_highest
query_highest-any query_fails roles rows m e h =
    let a = highest-any roles rows in
    elim (Option-cases (highest rows)) [
      | inl n ↦ absurd (ground (arith, e, n))
      | inr (r, n) ↦ ground (arith, e, n, h, a)
    ]

-- Whether a check passes the request on.
abbrev pub is_passed : Check → Bool
is_passed (passed m) = true
is_passed (refused status message) = false

-- RequireLocationRole passes a request on exactly if the user is signed in, the location is given, the
-- query works, and some membership of the user in the organization of the location, whatever
-- location it is for, has one of the roles or a higher one.
pub require_location_role-any :
    (query_fails : Bool) (roles : List String) (user_id location_id : String) (t : Tables)
    → is_passed (require_location_role query_fails roles user_id location_id t) ≡ (
        not (str_eq user_id "")
        && not (str_eq location_id "")
        && not query_fails
        && any (λ m. has_any_role m.role roles) (location_rows user_id location_id t))
unfolding resolve_location_membership query_highest
require_location_role-any query_fails roles user_id location_id t =
    let h = highest-any roles (location_rows user_id location_id t) in
    elim (Option-cases (highest (location_rows user_id location_id t))) [
      | inl n ↦ ground (arith, n, h)
      | inr (m, n) ↦ ground (arith, n, h)
    ]

-- The same of RequireOrgRole and the memberships in the organization.
pub require_org_role-any :
    (query_fails : Bool) (roles : List String) (user_id org_id : String) (t : Tables)
    → is_passed (require_org_role query_fails roles user_id org_id t) ≡ (
        not (str_eq user_id "")
        && not (str_eq org_id "")
        && not query_fails
        && any (λ m. has_any_role m.role roles) (org_rows user_id org_id t))
unfolding resolve_org_membership query_highest
require_org_role-any query_fails roles user_id org_id t =
    let h = highest-any roles (org_rows user_id org_id t) in
    elim (Option-cases (highest (org_rows user_id org_id t))) [
      | inl n ↦ ground (arith, n, h)
      | inr (m, n) ↦ ground (arith, n, h)
    ]
