-- ===== src/Leaderboard/Overlap.antt =====
-- Requests of GetLeaderboard (internal/handler/comp_leaderboard.go) that overlap: the cache is locked only
-- within its get, its put and its invalidation, so that anything can come between a request's look at the
-- cache, its queries and its put.
use routewerk.Prelude.{
  ℕ, ◌+◌, ◌≤◌, ◌≡◌, ◌⊎◌, String, str_eq, false, List, [], ◌∷◌, Option, none, some, ◌==◌,
  if◌then◌else◌,
}
use routewerk.Leaderboard.BoardCache.{LeaderboardCache, leaderboard_cache_ttl, get, put, invalidate}
use routewerk.Leaderboard.Endpoint.{
  ReadFaults, Clock, Answer, ok_board, bad_request, not_found, internal_error, Reads, Setting,
  Board, get_leaderboard,
}
use routewerk.Leaderboard.Answers.{IsComputed}
use routewerk.Leaderboard.CacheLaws.{SameLength}

-- A board that a request has built and not yet put into the cache.
pub record Pending (B : Type 0) : Type 0 where
  pub competition_id : String
  pub category_id : String
  pub board : B

-- What happens to the cache: a request, by its number, looks at it and on a miss runs its queries; a
-- request puts its board at a time; a writer, whose transaction is over, drops the boards of a
-- competition.
pub data Event (s : Setting) : Type 1 where
  asks : ℕ → ReadFaults → Clock → String → String → Reads s.fl.F → Event s
  stores : ℕ → ℕ → Event s
  drops : String → Event s

module _ (s : Setting) where
  -- The cache and the boards in the hands of requests.
  pub record State : Type 0 where
    pub cache : LeaderboardCache (Board s)
    pub pending : ℕ → Option (Pending (Board s))

  abbrev pub pended : ℕ → Option (Pending (Board s)) → State → State
  pended n p st = record st { pending = λ m. if m == n then p else st.pending m }

  -- What a request has in its hands after its queries: nothing on a hit or an error.
  abbrev pub built_by :
      String → String → Option (Board s) → Answer (Board s) → Option (Pending (Board s))
  built_by c k none (ok_board b) = some (record { competition_id = c; category_id = k; board = b })
  built_by c k none (bad_request m) = none
  built_by c k none not_found = none
  built_by c k none internal_error = none
  built_by c k (some hit) answer = none

  abbrev pub step : Event s → State → State
  step (asks n faults clock c k t) st =
      pended n
        (built_by c k (get clock.asked c k st.cache)
          (get_leaderboard s faults clock c k t st.cache).1)
        st
  step (stores n at) st = elim (st.pending n) [
    | none ↦ st
    | some p ↦
        pended n none (record st { cache = put at p.competition_id p.category_id p.board st.cache })
  ]
  step (drops c) st = record st { cache = invalidate c st.cache }

  -- The state after the events, the last one first.
  unfoldable pub after : List (Event s) → State
  after [] = record { cache = []; pending = λ n. none }
  after (e ∷ earlier) = step e (after earlier)

  -- The competition ids are as long as `c`.
  abbrev pub AreIds : String → List (Event s) → Type 0
  AreIds c [] = Unit
  AreIds c (asks n faults clock c' k t ∷ earlier) = SameLength c' c × AreIds c earlier
  AreIds c (stores n at ∷ earlier) = AreIds c earlier
  AreIds c (drops c' ∷ earlier) = SameLength c' c × AreIds c earlier

  -- Request `n` has computed the board from what its queries found.
  abbrev pub HasBuilt : ℕ → String → String → Board s → List (Event s) → Type 0
  HasBuilt n c k b [] = ⊥
  HasBuilt n c k b (asks m faults clock c' k' t ∷ earlier) =
      ((m ≡ n) × (c' ≡ c) × (k' ≡ k) × IsComputed s c k t clock b) ⊎ HasBuilt n c k b earlier
  HasBuilt n c k b (stores m at ∷ earlier) = HasBuilt n c k b earlier
  HasBuilt n c k b (drops c' ∷ earlier) = HasBuilt n c k b earlier

  -- Since the boards of the competition were last dropped, and no more than two seconds before `now`,
  -- some request has put the board, which it had computed before from what its queries found.
  abbrev pub IsRecent : ℕ → String → String → Board s → List (Event s) → Type 0
  IsRecent now c k b [] = ⊥
  IsRecent now c k b (asks n faults clock c' k' t ∷ earlier) = IsRecent now c k b earlier
  IsRecent now c k b (stores n at ∷ earlier) =
      (HasBuilt n c k b earlier × (now ≤ at + leaderboard_cache_ttl)) ⊎ IsRecent now c k b earlier
  IsRecent now c k b (drops c' ∷ earlier) = (str_eq c' c ≡ false) × IsRecent now c k b earlier
