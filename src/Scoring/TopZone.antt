-- ===== src/Scoring/TopZone.antt =====
-- topzone.go: IFSC-style scoring by counts, with count-back.
use routewerk.Prelude.{String, not, List, [], ◌∷◌, Option, none, some, if◌then◌else◌}
use routewerk.Prelude.Int.{ℤ, pos, sub64, eqb_ℤ}
use routewerk.Prelude.Maps.{lookup}
use routewerk.Scoring.Types.{Attempt, Problem, ProblemScore, ClimberScore, RankedScore, new_score}
use routewerk.Scoring.Sort.{slice_stable}
use routewerk.Scoring.Rank.{better, assign_standard_ranks}
use routewerk.Scoring.Scorer.{
  index_problems, deref_int_or, problem_score, count_top, count_zone, append_problem,
}

module _ {F : Type 0} where
  -- 2 = topped, 1 = zone only, 0 = neither.
  unfoldable pub goodness_tier : ProblemScore F → ℤ
  goodness_tier p = if p.top_reached then pos 2 else if p.zone_reached then pos 1 else pos 0

  unfoldable pub cmp_goodness : ProblemScore F → ProblemScore F → ℤ
  unfolding goodness_tier
  cmp_goodness a b =
      if not (eqb_ℤ (goodness_tier a) (goodness_tier b))
      then sub64 (goodness_tier b) (goodness_tier a)
      else if eqb_ℤ (goodness_tier a) (pos 2)
      then sub64 a.attempts b.attempts
      else if eqb_ℤ (goodness_tier a) (pos 1)
      then sub64 (deref_int_or a.zone_attempts (pos 0)) (deref_int_or b.zone_attempts (pos 0))
      else pos 0

  unfoldable pub sorted_by_goodness_desc : List (ProblemScore F) → List (ProblemScore F)
  sorted_by_goodness_desc ps = slice_stable (λ a b. better cmp_goodness a b) ps

  -- The loop of cmpCountBack: the first position that differs, up to the shorter length.
  unfoldable pub first_difference : List (ProblemScore F) → List (ProblemScore F) → ℤ
  first_difference [] bs = pos 0
  first_difference (a ∷ as') [] = pos 0
  first_difference (a ∷ as') (b ∷ bs) =
      let rest = first_difference as' bs in
      let c = cmp_goodness a b in if not (eqb_ℤ c (pos 0)) then c else rest

  unfoldable pub cmp_count_back : ClimberScore F → ClimberScore F → ℤ
  cmp_count_back a b =
      first_difference (sorted_by_goodness_desc a.per_problem)
        (sorted_by_goodness_desc b.per_problem)

  -- Negative when `a` ranks better than `b`.
  unfoldable pub cmp_top_zone : ClimberScore F → ClimberScore F → ℤ
  cmp_top_zone a b =
      if not (eqb_ℤ a.tops b.tops)
      then sub64 b.tops a.tops
      else if not (eqb_ℤ a.zones b.zones)
      then sub64 b.zones a.zones
      else if not (eqb_ℤ a.attempts_to_top b.attempts_to_top)
      then sub64 a.attempts_to_top b.attempts_to_top
      else if not (eqb_ℤ a.attempts_to_zone b.attempts_to_zone)
      then sub64 a.attempts_to_zone b.attempts_to_zone
      else cmp_count_back a b

  unfoldable pub rank : List (ClimberScore F) → List (RankedScore F)
  rank scores = assign_standard_ranks cmp_top_zone (slice_stable (better cmp_top_zone) scores)

  -- One round of Score's loop, `p` being the problem that the attempt names.
  unfoldable pub score_round : F → Attempt → Option (Problem F) → ClimberScore F → ClimberScore F
  score_round zero a none score = score
  score_round zero a (some p) score =
      append_problem (problem_score zero a p) (count_zone a (count_top a score))

  unfoldable pub score_loop :
      F → List (String × Problem F) → List Attempt → ClimberScore F → ClimberScore F
  unfolding score_round
  score_loop zero index [] score = score
  score_loop zero index (a ∷ rest) score =
      score_loop zero index rest (score_round zero a (lookup a.problem_id index) score)

  unfoldable pub score : F → String → List Attempt → List (Problem F) → ClimberScore F
  unfolding score_loop
  score zero id attempts problems =
      score_loop zero (index_problems problems) attempts (new_score zero id)
