-- ===== src/Scoring/Points.antt =====
-- The scorers by points: rankByPointsDescAttemptsAsc and cmpPointsDesc of helpers.go, fixed.go and
-- decay.go. The loops of the two Score methods differ only in the points of a top.
use routewerk.Prelude.{ℕ, String, not, List, [], ◌∷◌, Option, none, some, if◌then◌else◌}
use routewerk.Prelude.Int.{ℤ, pos, negsuc, sub64, eqb_ℤ, ltb_ℤ}
use routewerk.Prelude.Maps.{lookup}
use routewerk.Scoring.Float.{Float64}
use routewerk.Scoring.Types.{Attempt, Problem, ProblemScore, ClimberScore, RankedScore, new_score}
use routewerk.Scoring.Sort.{slice_stable}
use routewerk.Scoring.Rank.{better, assign_standard_ranks}
use routewerk.Scoring.Scorer.{
  index_problems, deref_float_or, parse_config, problem_score, count_top, count_zone,
  append_problem,
}

-- fixedConfig; a missing flash_bonus is 0.
pub record FixedConfig (F : Type 0) : Type 0 where
  pub flash_bonus : F

pub record DecayConfig (F : Type 0) : Type 0 where
  pub base_points : Option F
  pub decay_rate : Option F
  pub flash_bonus : Option F

module _ (fl : Float64) where
  open fl use {F, zero, one, of_int, add, mul, div, eq, gt}

  unfoldable pub cmp_points_desc : ClimberScore F → ClimberScore F → ℤ
  cmp_points_desc a b =
      if not (eq a.points b.points)
      then (if gt a.points b.points then negsuc 0 else pos 1)
      else if not (eqb_ℤ a.attempts_to_top b.attempts_to_top)
      then sub64 a.attempts_to_top b.attempts_to_top
      else pos 0

  unfoldable pub rank_by_points_desc_attempts_asc : List (ClimberScore F) → List (RankedScore F)
  rank_by_points_desc_attempts_asc scores =
      assign_standard_ranks cmp_points_desc (slice_stable (better cmp_points_desc) scores)

  -- The body of the branch `a.TopReached`, `pts` being the points of the top.
  abbrev pub add_points : F → Attempt → ClimberScore F → ClimberScore F
  add_points pts a score =
      if a.top_reached then record score { points = add score.points pts } else score

  abbrev pub set_points : F → Attempt → ProblemScore F → ProblemScore F
  set_points pts a ps = if a.top_reached then record ps { points = pts } else ps

  -- One round of the loop of Score, `points a p` being the points of a top.
  unfoldable pub score_round :
      (Attempt → Problem F → F) → Attempt → Option (Problem F) → ClimberScore F → ClimberScore F
  score_round points a none score = score
  score_round points a (some p) score =
      append_problem (set_points (points a p) a (problem_score zero a p))
        (count_zone a (count_top a (add_points (points a p) a score)))

  unfoldable pub score_loop :
      (Attempt → Problem F → F)
      → List (String × Problem F)
      → List Attempt
      → ClimberScore F
      → ClimberScore F
  score_loop points index [] score = score
  score_loop points index (a ∷ rest) score =
      score_loop points index rest (score_round points a (lookup a.problem_id index) score)

  -- The points of a top under the fixed rule.
  unfoldable pub fixed_points : F → Attempt → Problem F → F
  fixed_points flash_bonus a p =
      let pts = deref_float_or p.points zero in
      if eqb_ℤ a.attempts (pos 1) then add pts flash_bonus else pts

  -- fixed.Score; `none` is the error for a config that does not parse.
  unfoldable pub fixed_score :
      (List ℕ → Option (FixedConfig F))
      → String
      → List Attempt
      → List (Problem F)
      → List ℕ
      → Option (ClimberScore F)
  unfolding score_loop score_round fixed_points
  fixed_score unmarshal id attempts problems raw =
      elim (parse_config unmarshal (record { flash_bonus = zero }) raw) [
        | none ↦ none
        | some cfg ↦ some (
            score_loop (fixed_points cfg.flash_bonus) (index_problems problems) attempts
              (new_score zero id))
      ]

  -- `base / (1 + rate*float64(attempts-1))`, with fewer than one attempt taken as one.
  unfoldable pub decay_points : F → F → ℤ → F
  decay_points base rate attempts =
      let n = if ltb_ℤ attempts (pos 1) then pos 1 else attempts in
      div base (add one (mul rate (of_int (sub64 n (pos 1)))))

  -- The points of a top under the decay rule: base, rate and flash bonus.
  unfoldable pub decay_top : F → F → F → Attempt → Problem F → F
  unfolding decay_points
  decay_top base rate flash_bonus a p =
      let pts = decay_points base rate a.attempts in
      if eqb_ℤ a.attempts (pos 1) then add pts flash_bonus else pts

  -- 1000.0
  abbrev pub default_decay_base : F
  default_decay_base = of_int (pos 1000)

  -- 0.1, the float64 nearest to a tenth, which the division rounds to.
  abbrev pub default_decay_rate : F
  default_decay_rate = div one (of_int (pos 10))

  -- Base, rate and flash bonus, with defaults for what the config leaves out.
  abbrev pub resolved : DecayConfig F → F × F × F
  resolved c = (
    deref_float_or c.base_points default_decay_base,
    deref_float_or c.decay_rate default_decay_rate,
    deref_float_or c.flash_bonus zero,
  )

  unfoldable pub decay_score :
      (List ℕ → Option (DecayConfig F))
      → String
      → List Attempt
      → List (Problem F)
      → List ℕ
      → Option (ClimberScore F)
  unfolding score_loop score_round decay_top
  decay_score unmarshal id attempts problems raw =
      elim (parse_config unmarshal
        (record { base_points = none; decay_rate = none; flash_bonus = none }) raw) [
          | none ↦ none
          | some cfg ↦
              let (base, rate, flash_bonus) = resolved cfg in
              some (
                score_loop (decay_top base rate flash_bonus) (index_problems problems) attempts
                  (new_score zero id))
        ]
