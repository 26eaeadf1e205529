-- ===== src/Leaderboard/BoardCache.antt =====
-- leaderboardCache (internal/handler/comp_leaderboard.go): boards by competition and category, for two
-- seconds. Times are nanoseconds.
use Prim.Native.String.{◌++◌}
use text.Mathlib.Text.{starts_with}
use routewerk.Prelude.{ℕ, ◌+◌, String, not, List, Option, none, some, ltb, keep, if◌then◌else◌}
use routewerk.Prelude.Maps.{lookup, insert}

-- 2 * time.Second
abbrev pub leaderboard_cache_ttl : ℕ
leaderboard_cache_ttl = 2_000_000_000

-- `B` stands for api.Leaderboard.
pub record CachedLeaderboard (B : Type 0) : Type 0 where
  pub payload : B
  pub expires_at : ℕ

abbrev pub LeaderboardCache : Type 0 → Type 0
LeaderboardCache B = List (String × CachedLeaderboard B)

unfoldable pub key : String → String → String
key competition_id category_id = (competition_id ++ "|") ++ category_id

module _ {B : Type 0} where
  unfoldable pub get : ℕ → String → String → LeaderboardCache B → Option B
  get now competition_id category_id cache = elim (lookup (key competition_id category_id) cache) [
    | none ↦ none
    | some e ↦ if ltb e.expires_at now then none else some e.payload
  ]

  unfoldable pub put : ℕ → String → String → B → LeaderboardCache B → LeaderboardCache B
  put now competition_id category_id payload cache =
      insert (key competition_id category_id)
        (record { payload = payload; expires_at = now + leaderboard_cache_ttl }) cache

  unfoldable pub invalidate : String → LeaderboardCache B → LeaderboardCache B
  invalidate competition_id cache = keep (λ e. not (starts_with e.0 (competition_id ++ "|"))) cache
