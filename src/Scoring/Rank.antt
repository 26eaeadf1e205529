-- ===== src/Scoring/Rank.antt =====
-- assignStandardRanks of internal/service/competition/helpers.go: standard (1224) ranks.
use routewerk.Prelude.{ℕ, ◌+◌, ◌≡◌, refl, ap, Bool, List, [], ◌∷◌, map, arith, count, if◌then◌else◌}
use routewerk.Prelude.Int.{ℤ, pos, ltb_ℤ, eqb_ℤ}
use routewerk.Scoring.Types.{ClimberScore, RankedScore}

-- The test that the sort is given: `cmp(a, b) < 0`.
abbrev pub better {ℓ} : {A : Type ℓ} → (A → A → ℤ) → A → A → Bool
better cmp a b = ltb_ℤ (cmp a b) (pos 0)

module _ {F : Type 0} (cmp : ClimberScore F → ClimberScore F → ℤ) where
  -- `out[i] = RankedScore{ClimberScore: s, Rank: i + 1}` for each i.
  unfoldable pub number : ℕ → List (ClimberScore F) → List (RankedScore F)
  number i [] = []
  number i (s ∷ ss) = record { score = s; rank = pos (i + 1) } ∷ number (i + 1) ss

  -- One round of the second loop: a climber tied with the one before takes that one's rank.
  unfoldable pub share_rank : RankedScore F → RankedScore F → RankedScore F
  share_rank prev r =
      if eqb_ℤ (cmp r.score prev.score) (pos 0) then record r { rank = prev.rank } else r

  unfoldable pub share_ranks : RankedScore F → List (RankedScore F) → List (RankedScore F)
  share_ranks prev [] = []
  share_ranks prev (r ∷ rs) = share_rank prev r ∷ share_ranks (share_rank prev r) rs

  abbrev share_from_first : List (RankedScore F) → List (RankedScore F)
  share_from_first [] = []
  share_from_first (r ∷ rs) = r ∷ share_ranks r rs

  unfoldable pub assign_standard_ranks : List (ClimberScore F) → List (RankedScore F)
  unfolding number share_ranks share_rank
  assign_standard_ranks sorted = share_from_first (number 0 sorted)

  -- How many of the scores beat `s`.
  abbrev pub count_better : ClimberScore F → List (ClimberScore F) → ℕ
  count_better s ss = count (λ t. better cmp t s) ss

  pub score-share_rank : (prev r : RankedScore F) → (share_rank prev r).score ≡ r.score
  unfolding share_rank
  score-share_rank prev r = ground arith

  map-score-share_ranks :
      (prev : RankedScore F) (i : ℕ) (ss : List (ClimberScore F))
      → map (λ (r : RankedScore F). r.score) (share_ranks prev (number i ss)) ≡ ss
  unfolding share_ranks number
  map-score-share_ranks prev i [] = refl
  map-score-share_ranks prev i (s ∷ ss) =
      let r : RankedScore F = record { score = s; rank = pos (i + 1) } in
      cc (score-share_rank prev r, map-score-share_ranks (share_rank prev r) (i + 1) ss)

  pub map-score-assign_standard_ranks :
      (ss : List (ClimberScore F))
      → map (λ (r : RankedScore F). r.score) (assign_standard_ranks ss) ≡ ss
  unfolding assign_standard_ranks
  map-score-assign_standard_ranks [] = refl
  map-score-assign_standard_ranks (s ∷ ss) = ap (◌∷◌ s) (map-score-share_ranks _ 1 ss)
