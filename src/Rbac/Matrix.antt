-- ===== src/Rbac/Matrix.antt =====
-- The permission matrix of internal/rbac/rbac.go. Roles and permissions are strings there; a Go map is
-- the list of its entries, which no function here depends on the order of.
use routewerk.Prelude.{ℕ, String, Bool, true, false, List, [], ◌∷◌, none, some, leb, if◌then◌else◌}
use routewerk.Prelude.Maps.{lookup}

abbrev pub role_climber : String
role_climber = "climber"

abbrev pub role_setter : String
role_setter = "setter"

abbrev pub role_head_setter : String
role_head_setter = "head_setter"

abbrev pub role_gym_manager : String
role_gym_manager = "gym_manager"

abbrev pub role_org_admin : String
role_org_admin = "org_admin"

abbrev pub ranks : List (String × ℕ)
ranks =
    (role_climber, 1)
    ∷ (role_setter, 2)
    ∷ (role_head_setter, 3)
    ∷ (role_gym_manager, 4)
    ∷ (role_org_admin, 5)
    ∷ []

-- minRole, by the names of the permissions.
abbrev pub min_role : List (String × String)
min_role =
    ("route.view", role_climber)
    ∷ ("wall.view", role_climber)
    ∷ ("ascent.log", role_climber)
    ∷ ("route.rate", role_climber)
    ∷ ("photo.upload", role_climber)
    ∷ ("org.view", role_climber)
    ∷ ("tag.view", role_climber)
    ∷ ("route.create", role_setter)
    ∷ ("route.edit", role_setter)
    ∷ ("route.change_status", role_setter)
    ∷ ("wall.create", role_setter)
    ∷ ("wall.edit", role_setter)
    ∷ ("session.view", role_setter)
    ∷ ("settings.view", role_setter)
    ∷ ("labor.log", role_setter)
    ∷ ("tag.manage", role_setter)
    ∷ ("route.bulk_archive", role_head_setter)
    ∷ ("wall.delete", role_head_setter)
    ∷ ("session.create", role_head_setter)
    ∷ ("session.edit", role_head_setter)
    ∷ ("session.assign", role_head_setter)
    ∷ ("settings.edit", role_head_setter)
    ∷ ("analytics.view", role_head_setter)
    ∷ ("team.view", role_head_setter)
    ∷ ("team.edit", role_head_setter)
    ∷ ("labor.view", role_head_setter)
    ∷ ("org.edit", role_org_admin)
    ∷ ("location.create", role_org_admin)
    ∷ []

-- `Rank[role]`, which is 0 for an unknown role.
unfoldable pub rank_value : String → ℕ
rank_value role = elim (lookup role ranks) [ none ↦ 0 | some rank ↦ rank ]

unfoldable pub is_at_least : String → String → Bool
is_at_least user_role required_role = leb (rank_value required_role) (rank_value user_role)

-- The loop of HasAnyRole, for a user of the given rank.
unfoldable pub any_reached : ℕ → List String → Bool
any_reached user_rank [] = false
any_reached user_rank (r ∷ rest) =
    let later = any_reached user_rank rest in
    elim (lookup r ranks) [ none ↦ later | some rank ↦ if leb rank user_rank then true else later ]

unfoldable pub has_any_role : String → List String → Bool
has_any_role user_role required = elim (lookup user_role ranks) [
  | none ↦ false
  | some user_rank ↦ any_reached user_rank required
]

unfoldable pub valid_role : String → Bool
valid_role role = elim (lookup role ranks) [ none ↦ false | some rank ↦ true ]

-- Can
unfoldable pub can : String → String → Bool
can role perm = elim (lookup perm min_role) [
  | none ↦ false
  | some required ↦ is_at_least role required
]

-- The loop of AllPermissions.
unfoldable pub granted : String → List (String × String) → List String
granted role [] = []
granted role ((perm, required) ∷ rest) =
    let others = granted role rest in if is_at_least role required then perm ∷ others else others

unfoldable pub all_permissions : String → List String
all_permissions role = granted role min_role
