-- ===== src/Rbac/Tests.antt =====
-- The theorems on internal/rbac at concrete roles.
use routewerk.Prelude.{◌≡◌, refl, str_eq, true, false, [], ◌∷◌, count, ◌&&◌, if◌then◌else◌}
use routewerk.Prelude.Maps.{lookup}
use routewerk.Rbac.Matrix.{rank_value, is_at_least, has_any_role, valid_role, can, all_permissions}
use routewerk.Rbac.Access.{
  can-is_at_least, can-valid_role, all_permissions-can, lowest, reaches, has_any_role-lowest,
}

above : is_at_least "gym_manager" "setter" ≡ true
unfolding is_at_least rank_value lookup
above = refl

setter_edits : can "setter" "wall.edit" ≡ true
unfolding can is_at_least rank_value lookup
setter_edits = refl

can-is_at_least_example : can "gym_manager" "wall.edit" ≡ true
can-is_at_least_example = can-is_at_least "gym_manager" "setter" "wall.edit" above setter_edits

stranger : valid_role "guest" ≡ false
unfolding valid_role lookup
stranger = refl

can-valid_role_example : can "guest" "route.view" ≡ false
can-valid_role_example = can-valid_role "guest" "route.view" stranger

all_permissions-can_example :
    count (λ q. str_eq q "tag.view") (all_permissions "climber")
    ≡ (if can "climber" "tag.view" then 1 else 0)
all_permissions-can_example = all_permissions-can "climber" "tag.view"

has_any_role-lowest_example :
    has_any_role "setter" ("org_admin" ∷ "climber" ∷ [])
    ≡ (valid_role "setter" && reaches (rank_value "setter") (lowest ("org_admin" ∷ "climber" ∷ [])))
has_any_role-lowest_example = has_any_role-lowest "setter" ("org_admin" ∷ "climber" ∷ [])
