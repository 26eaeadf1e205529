-- ===== src/Scoring/Tests.antt =====
-- The theorems on internal/service/competition at concrete climbers.
use routewerk.Prelude.{
  ℕ, ◌+◌, ◌*◌, ◌≡◌, refl, String, true, false, List, [], ◌∷◌, none, some, arith, All, map, count,
  ltb, ◌==◌,
}
use routewerk.Prelude.Int.{ℤ, pos, pos_part}
use routewerk.Scoring.Types.{Attempt, Problem, ClimberScore}
use routewerk.Scoring.Scorer.{index_problems}
use routewerk.Scoring.Float.{Float64, IsTotalOrder}
use routewerk.Scoring.Points.{
  FixedConfig, DecayConfig, cmp_points_desc, rank_by_points_desc_attempts_asc, fixed_points,
  fixed_score, decay_score,
}
use routewerk.Scoring.TopZone.{cmp_top_zone}
use routewerk.Scoring.TopZone
use routewerk.Scoring.CountBack.{reached, IsWellFormed}
use routewerk.Scoring.Tally.{IsSoundAttempt, topped, sum_tops, sum_zones, tally, Fits, known_rows}
use routewerk.Scoring.TopScore.{rows_of, score-tally}
use routewerk.Scoring.PointsOrder.{IsRankable}
use routewerk.Scoring.PointsScore.{points_rows, points_tally, fixed_score-tally}
use routewerk.Scoring.DecayScore.{decay_rule, decay_score-tally}
use routewerk.Scoring.Registry.{Scorer, register, fixed, Registers, register-get_scorer}
use routewerk.Scoring.Standings.{
  IsRanking, score_of, IsScorable, scored-IsRanking, top_zone-IsRanking, points-IsRanking,
}

abbrev anna_attempts : List Attempt
anna_attempts =
    record {
      registration_id = "anna";
      problem_id = "p1";
      attempts = pos 3;
      zone_attempts = some (pos 1);
      zone_reached = true;
      top_reached = true;
    }
    ∷ record {
      registration_id = "anna";
      problem_id = "p2";
      attempts = pos 1;
      zone_attempts = some (pos 1);
      zone_reached = true;
      top_reached = true;
    }
    ∷ record {
      registration_id = "anna";
      problem_id = "removed";
      attempts = pos 9;
      zone_attempts = none;
      zone_reached = false;
      top_reached = false;
    }
    ∷ []

abbrev problem : String → ℤ → Problem ℕ
problem id sort_order = record {
  id = id;
  label = id;
  points = some 100;
  zone_points = none;
  sort_order = sort_order;
}

abbrev two_problems : List (Problem ℕ)
two_problems = problem "p1" (pos 1) ∷ problem "p2" (pos 2) ∷ []

anna-IsSoundAttempt : All IsSoundAttempt anna_attempts
anna-IsSoundAttempt = ground arith

rows_of-Fits : Fits 0 0 0 0 (rows_of 0 "anna" anna_attempts two_problems)
unfolding known_rows index_problems count sum_tops sum_zones
rows_of-Fits = ground arith

score-tally_example :
    TopZone.score 0 "anna" anna_attempts two_problems
    ≡ tally "anna" 0
        (count topped (rows_of 0 "anna" anna_attempts two_problems))
        (count reached (rows_of 0 "anna" anna_attempts two_problems))
        (sum_tops (rows_of 0 "anna" anna_attempts two_problems))
        (sum_zones (rows_of 0 "anna" anna_attempts two_problems))
        (rows_of 0 "anna" anna_attempts two_problems)
score-tally_example =
    score-tally 0 "anna" anna_attempts two_problems anna-IsSoundAttempt rows_of-Fits

anna-IsScorable : IsScorable 0 two_problems ("anna", anna_attempts)
anna-IsScorable = record { attempts_sound = anna-IsSoundAttempt; sums_fit = rows_of-Fits }

bert-IsScorable : IsScorable 0 two_problems ("bert", [])
unfolding known_rows index_problems count sum_tops sum_zones
bert-IsScorable = ground arith

scored-IsRanking_example :
    IsRanking cmp_top_zone
      (map (score_of 0 two_problems) (("anna", anna_attempts) ∷ ("bert", []) ∷ []))
      (TopZone.rank (map (score_of 0 two_problems) (("anna", anna_attempts) ∷ ("bert", []) ∷ [])))
scored-IsRanking_example =
    scored-IsRanking 0 two_problems (("anna", anna_attempts) ∷ ("bert", []) ∷ [])
      (anna-IsScorable, (bert-IsScorable, tt))

-- Two climbers who tie, and one who is better.
abbrev climber : String → ℕ → ClimberScore ℕ
climber id attempts = record {
  registration_id = id;
  points = 100;
  tops = pos 1;
  zones = pos 1;
  attempts_to_top = pos attempts;
  attempts_to_zone = pos 1;
  per_problem =
      record {
        problem_id = "p1";
        attempts = pos attempts;
        zone_attempts = some (pos 1);
        points = 100;
        top_reached = true;
        zone_reached = true;
        sort_order = pos 1;
      }
      ∷ [];
}

abbrev three_scores : List (ClimberScore ℕ)
three_scores = climber "anna" 3 ∷ climber "bert" 3 ∷ climber "cleo" 1 ∷ []

three_scores-IsWellFormed : All IsWellFormed three_scores
unfolding count
three_scores-IsWellFormed = ground arith

top_zone-IsRanking_example : IsRanking cmp_top_zone three_scores (TopZone.rank three_scores)
top_zone-IsRanking_example = top_zone-IsRanking three_scores three_scores-IsWellFormed

-- Whole numbers in place of float64.
abbrev whole : Float64
whole = record {
  F = ℕ;
  zero = 0;
  one = 1;
  of_int = pos_part;
  add = λ a b. a + b;
  mul = λ a b. a * b;
  div = λ a b. a;
  eq = λ a b. a == b;
  gt = λ a b. ltb b a;
}

abbrev AnyNumber : ℕ → Type 0
AnyNumber n = Unit {0}

whole-IsTotalOrder : IsTotalOrder whole AnyNumber
whole-IsTotalOrder = record {
  eq_iff = λ a b x y. ground arith;
  gt_asym = λ a b x y h. ground arith;
  not_gt_trans = λ a b c x y z h k. ground arith;
}

three_scores-IsRankable : All (IsRankable AnyNumber) three_scores
three_scores-IsRankable = ground arith

points-IsRanking_example :
    IsRanking
      (cmp_points_desc whole)
      three_scores
      (rank_by_points_desc_attempts_asc whole three_scores)
points-IsRanking_example =
    points-IsRanking whole AnyNumber whole-IsTotalOrder three_scores three_scores-IsRankable

abbrev no_bonus : FixedConfig ℕ
no_bonus = record { flash_bonus = 0 }

fixed-Fits :
    Fits 0 0 0 0 (points_rows whole "anna" anna_attempts two_problems (fixed_points whole 0))
unfolding known_rows index_problems count sum_tops sum_zones
fixed-Fits = ground arith

fixed_score-tally_example :
    fixed_score whole (λ raw. none) "anna" anna_attempts two_problems []
    ≡ some (points_tally whole "anna" anna_attempts two_problems (fixed_points whole 0))
fixed_score-tally_example =
    fixed_score-tally whole (λ raw. none) "anna" anna_attempts two_problems [] no_bonus refl
      anna-IsSoundAttempt fixed-Fits

abbrev no_config : DecayConfig ℕ
no_config = record { base_points = none; decay_rate = none; flash_bonus = none }

decay-Fits :
    Fits 0 0 0 0 (points_rows whole "anna" anna_attempts two_problems (decay_rule whole no_config))
unfolding known_rows index_problems count sum_tops sum_zones
decay-Fits = ground arith

decay_score-tally_example :
    decay_score whole (λ raw. none) "anna" anna_attempts two_problems []
    ≡ some (points_tally whole "anna" anna_attempts two_problems (decay_rule whole no_config))
decay_score-tally_example =
    decay_score-tally whole (λ raw. none) "anna" anna_attempts two_problems [] no_config refl
      anna-IsSoundAttempt decay-Fits

abbrev fixed_whole : Scorer ℕ
fixed_whole = fixed whole (λ raw. none) (λ raw. none)

register-get_scorer_example :
    Registers fixed_whole
      (("fixed", fixed_whole) ∷ [])
      (register fixed_whole (("fixed", fixed_whole) ∷ []))
      "fixed"
register-get_scorer_example = register-get_scorer fixed_whole (("fixed", fixed_whole) ∷ []) "fixed"
