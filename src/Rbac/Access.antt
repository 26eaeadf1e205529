-- ===== src/Rbac/Access.antt =====
-- Who may do what (internal/rbac/rbac.go).
use routewerk.Prelude.{
  ℕ, ◌≤◌, ◌≡◌, refl, sym, ◌∙◌, inl, inr, String, str_eq, eq_iff, Bool, true, false, ◌&&◌, List, [],
  ◌∷◌, Option, none, some, arith, All, count, leb, Bool-cases, Option-cases, if◌then◌else◌,
}
use mathlib.Core.Path.{subst}
use routewerk.Prelude.Maps.{lookup}
use routewerk.Rbac.Matrix.{
  ranks, min_role, rank_value, is_at_least, any_reached, has_any_role, valid_role, can, granted,
  all_permissions,
}

leb_trans : (a b c : ℕ) → leb b a ≡ true → leb c b ≡ true → leb c a ≡ true
leb_trans a b c h k = ground arith

can-known :
    (role perm : String) {required : String}
    → lookup perm min_role ≡ some required
    → can role perm ≡ is_at_least role required
unfolding can
can-known role perm e = rw (e, can)

-- A role that is at least another has all its permissions.
pub can-is_at_least :
    (higher lower perm : String)
    → is_at_least higher lower ≡ true
    → can lower perm ≡ true
    → can higher perm ≡ true
unfolding can is_at_least
can-is_at_least higher lower perm h k = elim (Option-cases (lookup perm min_role)) [
  | inl e ↦ absurd (ground (arith, k, e))
  | inr (r, e) ↦
      can-known higher perm e
      ∙ leb_trans (rank_value higher) (rank_value lower) (rank_value r) h
          (sym (can-known lower perm e) ∙ k)
]

pub lookup-All :
    {V : Type 0} (P : V → Type 0) (k : String) (m : List (String × V)) (v : V)
    → All (λ (x : String × V). P x.1) m
    → lookup k m ≡ some v
    → P v
unfolding lookup
lookup-All P k [] v h e = cc
lookup-All {V = V} P k (x ∷ m) v h e = elim (Bool-cases (str_eq x.0 k)) [
  | inl t ↦ let q : x.1 ≡ v = ground (arith, e, t) in subst P q h.0
  | inr t ↦ lookup-All P k m v h.1 (ground (arith, e, t))
]

min_role-known : All (λ (x : String × String). 1 ≤ rank_value x.1) min_role
unfolding rank_value lookup
min_role-known = ground arith

unknown-rank : (role : String) → valid_role role ≡ false → rank_value role ≡ 0
unfolding valid_role rank_value
unknown-rank role h = ground (arith, h)

-- A role that is not known has no permission at all.
pub can-valid_role : (role perm : String) → valid_role role ≡ false → can role perm ≡ false
unfolding can is_at_least
can-valid_role role perm h = elim (Option-cases (lookup perm min_role)) [
  | inl e ↦ rw (e, can)
  | inr (r, e) ↦
      can-known role perm e
      ∙ ground (
        arith,
        unknown-rank role h,
        lookup-All (λ x. 1 ≤ rank_value x) perm min_role r min_role-known e,
      )
]

-- No key stands twice.
abbrev IsDistinct : List (String × String) → Type 0
IsDistinct [] = Unit
IsDistinct (x ∷ m) = (lookup x.0 m ≡ none) × IsDistinct m

min_role-IsDistinct : IsDistinct min_role
unfolding lookup
min_role-IsDistinct = ground arith

abbrev one_if : Bool → ℕ
one_if b = if b then 1 else 0

abbrev granted_once : String → Option String → ℕ
granted_once role none = 0
granted_once role (some required) = one_if (is_at_least role required)

granted-count :
    (role perm : String) (m : List (String × String))
    → IsDistinct m
    → count (λ q. str_eq q perm) (granted role m) ≡ granted_once role (lookup perm m)
unfolding granted lookup count
granted-count role perm [] h = refl
granted-count role perm ((q, r) ∷ m) h = elim (Bool-cases (str_eq q perm)) [
  | inl e ↦
      let same : q ≡ perm = ground (arith, e, eq_iff q perm) in
      let absent : lookup perm m ≡ none = subst (λ x. lookup x m ≡ none) same h.0 in
      ground (arith, e, granted-count role perm m h.1, absent)
  | inr e ↦ ground (arith, e, granted-count role perm m h.1)
]

-- AllPermissions lists a permission exactly once if Can allows it, and not at all otherwise.
pub all_permissions-can :
    (role perm : String)
    → count (λ q. str_eq q perm) (all_permissions role) ≡ (if can role perm then 1 else 0)
unfolding all_permissions can
all_permissions-can role perm = granted-count role perm min_role min_role-IsDistinct ∙ once
  where
    once : granted_once role (lookup perm min_role) ≡ (if can role perm then 1 else 0)
    once = elim (Option-cases (lookup perm min_role)) [
      | inl e ↦ rw (e, can)
      | inr (r, e) ↦ rw (e, can)
    ]

-- The lowest rank among the required roles that are known.
unfoldable pub lowest : List String → Option ℕ
lowest [] = none
lowest (r ∷ rest) =
    let later = lowest rest in
    elim (lookup r ranks) [
      | none ↦ later
      | some rank ↦ elim later [
        | none ↦ some rank
        | some other ↦ some (if leb rank other then rank else other)
      ]
    ]

abbrev pub reaches : ℕ → Option ℕ → Bool
reaches rank none = false
reaches rank (some threshold) = leb threshold rank

any_reached-lowest :
    (rank : ℕ) (required : List String) → any_reached rank required ≡ reaches rank (lowest required)
unfolding any_reached lowest
any_reached-lowest rank [] = refl
any_reached-lowest rank (r ∷ rest) = elim (Option-cases (lookup r ranks)) [
  | inl e ↦ ground (arith, e, any_reached-lowest rank rest)
  | inr (n, e) ↦ elim (Option-cases (lowest rest)) [
    | inl f ↦ ground (arith, e, f, any_reached-lowest rank rest)
    | inr (l, f) ↦ ground (arith, e, f, any_reached-lowest rank rest)
  ]
]

-- HasAnyRole holds exactly if the user's role is known and reaches the lowest rank among the required
-- roles that are known, of which there must be one.
pub has_any_role-lowest :
    (user_role : String) (required : List String)
    → has_any_role user_role required
      ≡ (valid_role user_role && reaches (rank_value user_role) (lowest required))
unfolding has_any_role valid_role rank_value
has_any_role-lowest user_role required = elim (Option-cases (lookup user_role ranks)) [
  | inl e ↦ rw (e, has_any_role, valid_role, rank_value)
  | inr (n, e) ↦ ground (arith, e, any_reached-lowest n required)
]
