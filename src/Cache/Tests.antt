-- ===== src/Cache/Tests.antt =====
-- The theorem on the cache at a concrete sequence of calls.
use routewerk.Prelude.{ℕ, ◌≡◌, List, [], ◌∷◌, arith}
use routewerk.Prelude.Int.{pos}
use routewerk.Cache.Store.{get}
use routewerk.Cache.Freshness.{Call, got, stored, dropped, after, last_set, fresh, get-last_set}

-- A Set that is read while fresh, and then read when it has expired; the last call comes first.
abbrev calls : List (Call ℕ)
calls = got (pos 30) "gym" ∷ got (pos 12) "gym" ∷ stored (pos 10) "gym" 7 ∷ dropped "gym" ∷ []

get-last_set_example :
    (get (pos 31) "gym" (after (pos 5) calls)).0 ≡ fresh (pos 31) (last_set (pos 5) "gym" calls)
get-last_set_example = get-last_set (pos 5) (pos 31) "gym" calls (omega arith, (omega arith, tt))
