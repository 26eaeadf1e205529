-- ===== src/Scoring/Standings.antt =====
-- The Rank methods of the three scorers: what their standings are.
use mathlib.Core.List.{Perm}
use routewerk.Prelude.{◌≡◌, sym, Bool, not, ◌||◌, String, List, [], ◌∷◌, map, keep, All}
use mathlib.Core.Path.{subst}
use routewerk.Prelude.Int.{ℤ}
use routewerk.Scoring.Tally.{IsSoundAttempt, Fits}
use routewerk.Scoring.TopScore.{rows_of, score-IsWellFormed}
use routewerk.Scoring.Types.{Attempt, Problem, ClimberScore, RankedScore}
use routewerk.Scoring.Sort.{
  IsSorted, slice_stable, slice_stable-perm, slice_stable-IsSorted, keep-slice_stable,
}
use routewerk.Scoring.Rank.{better, assign_standard_ranks, map-score-assign_standard_ranks}
use routewerk.Scoring.Standing.{IsComparator, IsRankIn, rank-count_better}
use routewerk.Scoring.CountBack.{IsWellFormed}
use routewerk.Scoring.TopZone
use routewerk.Scoring.TopZone.{cmp_top_zone}
use routewerk.Scoring.TopOrder.{cmp_top_zone-IsComparator}
use routewerk.Scoring.Float.{Float64, IsTotalOrder}
use routewerk.Scoring.Points.{cmp_points_desc, rank_by_points_desc_attempts_asc}
use routewerk.Scoring.PointsOrder.{IsRankable, cmp_points_desc-IsComparator}

-- The climbers of a ranking, best first.
abbrev pub scores_of : {F : Type 0} → List (RankedScore F) → List (ClimberScore F)
scores_of = map (λ r. r.score)

-- Neither of two scores is better.
abbrev pub tie :
    {F : Type 0} → (ClimberScore F → ClimberScore F → ℤ) → ClimberScore F → ClimberScore F → Bool
tie cmp a b = not (better cmp a b || better cmp b a)

-- A ranking of `scores` by `cmp`: nobody is lost or doubled, nobody stands before a better climber,
-- tied climbers keep the order that they came in, and a rank counts the better climbers.
pub record IsRanking {F : Type 0} (cmp : ClimberScore F → ClimberScore F → ℤ)
    (scores : List (ClimberScore F)) (ranked : List (RankedScore F)) : Type 0 where
  pub same_climbers : Perm (scores_of ranked) scores
  pub sorted : IsSorted (better cmp) (scores_of ranked)
  pub stable : All (λ a. keep (tie cmp a) (scores_of ranked) ≡ keep (tie cmp a) scores) scores
  pub ranks : All (IsRankIn cmp scores) ranked

module _ {F : Type 0} {P : ClimberScore F → Type 0} {cmp : ClimberScore F → ClimberScore F → ℤ}
    (c : IsComparator P cmp) where
  stable_within :
      (all some_scores : List (ClimberScore F))
      → All P all
      → All P some_scores
      → All
          (λ a. keep (tie cmp a) (slice_stable (better cmp) all) ≡ keep (tie cmp a) all)
          some_scores
  stable_within all [] h k = tt
  stable_within all (s ∷ ss) h k =
      (keep-slice_stable P (better cmp) c.order s all k.0 h, stable_within all ss h k.1)

  -- Sorting by a comparator and assigning standard ranks gives a ranking.
  standard-IsRanking :
      (scores : List (ClimberScore F))
      → All P scores
      → IsRanking cmp scores (assign_standard_ranks cmp (slice_stable (better cmp) scores))
  standard-IsRanking scores h =
      let e = sym (map-score-assign_standard_ranks cmp (slice_stable (better cmp) scores)) in
      record {
        same_climbers = subst (λ ss. Perm ss scores) e (slice_stable-perm (better cmp) scores);
        sorted =
            subst (IsSorted (better cmp)) e (slice_stable-IsSorted P (better cmp) c.order scores h);
        stable =
            subst (λ ss. All (λ a. keep (tie cmp a) ss ≡ keep (tie cmp a) scores) scores) e
              (stable_within scores scores h h);
        ranks = rank-count_better c scores h;
      }

-- The standings of top_zone, over scores whose rows are sound (a top implies the zone, no count is
-- negative or too large) and whose zone count is that of their rows: the climbers are those given,
-- nobody stands before a better one, tied climbers keep their order, and each rank is one more than
-- the number of strictly better climbers.
pub top_zone-IsRanking :
    {F : Type 0} (scores : List (ClimberScore F))
    → All IsWellFormed scores
    → IsRanking cmp_top_zone scores (TopZone.rank scores)
unfolding TopZone.rank
top_zone-IsRanking scores h = standard-IsRanking cmp_top_zone-IsComparator scores h

-- The same of fixed and decay, over scores whose points are not NaN and whose attempts are counts,
-- where float64 comparison is a total order on the numbers.
pub points-IsRanking :
    (fl : Float64) (IsNumber : fl.F → Type 0)
    → IsTotalOrder fl IsNumber
    → (scores : List (ClimberScore fl.F)) → All (IsRankable IsNumber) scores
    → IsRanking (cmp_points_desc fl) scores (rank_by_points_desc_attempts_asc fl scores)
unfolding rank_by_points_desc_attempts_asc
points-IsRanking fl IsNumber o scores h =
    standard-IsRanking (cmp_points_desc-IsComparator fl IsNumber o) scores h

module _ {F : Type 0} (zero : F) (problems : List (Problem F)) where
  -- The score of a climber, given by its id and attempts.
  abbrev pub score_of : String × List Attempt → ClimberScore F
  score_of (id, attempts) = TopZone.score zero id attempts problems

  pub record IsScorable (c : String × List Attempt) : Type 0 where
    pub attempts_sound : All IsSoundAttempt c.1
    pub sums_fit : Fits 0 0 0 0 (rows_of zero c.0 c.1 problems)

  scores-IsWellFormed :
      (climbers : List (String × List Attempt))
      → All IsScorable climbers
      → All IsWellFormed (map score_of climbers)
  scores-IsWellFormed [] h = tt
  scores-IsWellFormed ((id, attempts) ∷ climbers) h = (
    score-IsWellFormed zero id attempts problems h.0.attempts_sound h.0.sums_fit,
    scores-IsWellFormed climbers h.1,
  )

  -- Score and Rank of top_zone together: over climbers whose attempts are sound and whose counts and
  -- sums fit an int, ranking the scores that Score gives is a ranking of the climbers.
  pub scored-IsRanking :
      (climbers : List (String × List Attempt))
      → All IsScorable climbers
      → IsRanking cmp_top_zone (map score_of climbers) (TopZone.rank (map score_of climbers))
  scored-IsRanking climbers h =
      top_zone-IsRanking (map score_of climbers) (scores-IsWellFormed climbers h)
