-- ===== src/Leaderboard/CacheLaws.antt =====
-- What a get of the leaderboardCache (internal/handler/comp_leaderboard.go) finds after a put and after an
-- invalidation.
use Prim.Native.String.{◌++◌}
use Prim.Native.String as Str
use mathlib.Core.Path.{subst}
use text.Mathlib.Text.{starts_with}
use text.Mathlib.TextEquality.{starts_with_iff}
use text.Mathlib.TextPositions.{starts_with-append}
use text.Mathlib.TextLemmas.{append_inj, append_assoc, append_cancel_left}
use routewerk.Prelude.{
  ℕ, ◌+◌, ◌≤◌, ◌≡◌, refl, sym, ap, ◌∙◌, ◌⊎◌, inl, inr, String, str_eq, eq_iff, Bool, true, not,
  List, [], ◌∷◌, none, some, arith, keep, Bool-cases, if◌then◌else◌,
}
use routewerk.Prelude.Maps.{lookup, lookup-insert}
use routewerk.Leaderboard.BoardCache.{
  LeaderboardCache, leaderboard_cache_ttl, key, get, put, invalidate,
}

-- Two ids of the same length, as canonical UUIDs are.
abbrev pub SameLength : String → String → Type 0
SameLength a b = Str.count a ≡ Str.count b

key-inj : (c c' k k' : String) → SameLength c c' → key c k ≡ key c' k' → (c ≡ c') × (k ≡ k')
unfolding key
key-inj c c' k k' l e =
    let p =
      append_inj {s₁ = c} {s₂ = c'} (sym (append_assoc c "|" k) ∙ e ∙ append_assoc c' "|" k') l in
    (p.0, append_cancel_left "|" k k' p.1)

lookup-keep :
    {V : Type 0} (p : String → Bool) (k : String) (entries : List (String × V))
    → lookup k (keep (λ e. p e.0) entries) ≡ (if p k then lookup k entries else none)
unfolding lookup keep
lookup-keep p k [] = ground arith
lookup-keep p k (e ∷ entries) = elim (Bool-cases (str_eq e.0 k)) [
  | inl q ↦
      let same : p e.0 ≡ p k = ap p (ground (arith, q, eq_iff e.0 k)) in
      ground (arith, q, same, lookup-keep p k entries)
  | inr q ↦ ground (arith, q, lookup-keep p k entries)
]

-- The keys that an invalidation drops are those of its competition.
starts_with-key :
    (c c' k : String) → SameLength c' c → starts_with (key c k) (c' ++ "|") ≡ str_eq c' c
unfolding key
starts_with-key c c' k l = elim (Bool-cases (str_eq c' c)) [
  | inl e ↦
      let same : c' ≡ c = ground (arith, e, eq_iff c' c) in
      subst (λ x. starts_with ((x ++ "|") ++ k) (c' ++ "|") ≡ true) same
        (starts_with-append (c' ++ "|") k)
      ∙ sym e
  | inr e ↦ elim (Bool-cases (starts_with ((c ++ "|") ++ k) (c' ++ "|"))) [
    | inr f ↦ f ∙ sym e
    | inl f ↦
        let (u, q) = (starts_with_iff ((c ++ "|") ++ k) (c' ++ "|")).0 f in
        let same : c' ≡ c =
          (append_inj {s₁ = c'} {s₂ = c} (sym (append_assoc c' "|" u) ∙ q ∙ append_assoc c "|" k)
            l).0 in
        absurd (ground (arith, e, same, eq_iff c' c))
  ]
]

pub get-empty : {B : Type 0} (now : ℕ) (c k : String) → get {B = B} now c k [] ≡ none
unfolding get lookup
get-empty now c k = refl

module _ {B : Type 0} where
  pub get-invalidate :
      (now : ℕ) (c c' k : String) (cache : LeaderboardCache B)
      → SameLength c' c
      → get now c k (invalidate c' cache) ≡ (if str_eq c' c then none else get now c k cache)
  unfolding get invalidate
  get-invalidate now c c' k cache l =
      let kept = lookup-keep (λ x. not (starts_with x (c' ++ "|"))) (key c k) cache in
      elim (Bool-cases (str_eq c' c)) [
        | inl e ↦ ground (arith, kept, starts_with-key c c' k l, e)
        | inr e ↦ ground (arith, kept, starts_with-key c c' k l, e)
      ]

  -- A board that is read after a put is the one that was put, within its two seconds, or one that
  -- was there before.
  pub get-put :
      (now at : ℕ) (c c' k k' : String) (board b : B) (cache : LeaderboardCache B)
      → SameLength c' c
      → get now c k (put at c' k' board cache) ≡ some b
      → ((c' ≡ c) × (k' ≡ k) × (b ≡ board) × (now ≤ at + leaderboard_cache_ttl))
        ⊎ (get now c k cache ≡ some b)
  unfolding get put
  get-put now at c c' k k' board b cache l e =
      let found =
        lookup-insert (key c' k') (key c k)
          (record { payload = board; expires_at = at + leaderboard_cache_ttl }) cache in
      elim (Bool-cases (str_eq (key c' k') (key c k))) [
        | inl q ↦
            let (x, y) = key-inj c' c k' k l (ground (arith, q, eq_iff (key c' k') (key c k))) in
            inl (x, y, ground (arith, e, found, q), ground (arith, e, found, q))
        | inr q ↦ inr (ground (arith, e, found, q))
      ]
