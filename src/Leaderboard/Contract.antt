-- ===== src/Leaderboard/Contract.antt =====
-- The three scorers of internal/service/competition keep the contract that aggregateLeaderboard
-- (internal/handler/comp_leaderboard.go) relies on.
use mathlib.Core.List.{Perm}
use mathlib.Core.Path.{subst}
use routewerk.Prelude.{
  ℕ, ◌≡◌, refl, sym, ap, ◌∙◌, String, List, [], ◌∷◌, Option, none, some, inl, inr, arith, All,
  Option-cases,
}
use routewerk.Prelude.Int.{ℤ}
use routewerk.Prelude.Maps.{lookup}
use routewerk.Scoring.Types.{Attempt, Problem, ProblemScore, ClimberScore, new_score}
use routewerk.Scoring.Scorer.{
  index_problems, parse_config, problem_score, count_top, count_zone, append_problem,
}
use routewerk.Scoring.Float.{Float64}
use routewerk.Scoring.Rank.{better, assign_standard_ranks, map-score-assign_standard_ranks}
use routewerk.Scoring.Sort.{slice_stable, slice_stable-perm, slice_stable-All}
use routewerk.Scoring.Points.{
  FixedConfig, DecayConfig, fixed_score, decay_score, cmp_points_desc, add_points,
  rank_by_points_desc_attempts_asc,
}
use routewerk.Scoring.Points
use routewerk.Scoring.TopZone
use routewerk.Scoring.Registry.{top_zone, fixed, decay}
use routewerk.Scoring.Standings.{scores_of}
use routewerk.Leaderboard.Entries.{IsScorer}

module _ {F : Type 0} where
  counted-id :
      (a : Attempt) (ps : ProblemScore F) (s : ClimberScore F)
      → (append_problem ps (count_zone a (count_top a s))).registration_id ≡ s.registration_id
  counted-id a ps s = ground arith

  top_round-id :
      (zero : F) (a : Attempt) (p : Option (Problem F)) (s : ClimberScore F)
      → (TopZone.score_round zero a p s).registration_id ≡ s.registration_id
  unfolding TopZone.score_round
  top_round-id zero a none s = refl
  top_round-id zero a (some p) s = counted-id a (problem_score zero a p) s

  top_loop-id :
      (zero : F) (index : List (String × Problem F)) (attempts : List Attempt) (s : ClimberScore F)
      → (TopZone.score_loop zero index attempts s).registration_id ≡ s.registration_id
  unfolding TopZone.score_loop
  top_loop-id zero index [] s = refl
  top_loop-id zero index (a ∷ rest) s =
      top_loop-id zero index rest (TopZone.score_round zero a (lookup a.problem_id index) s)
      ∙ top_round-id zero a (lookup a.problem_id index) s

  sorted-climbers :
      (cmp : ClimberScore F → ClimberScore F → ℤ) (scores : List (ClimberScore F))
      → Perm (scores_of (assign_standard_ranks cmp (slice_stable (better cmp) scores))) scores
  sorted-climbers cmp scores =
      subst (λ ss. Perm ss scores)
        (sym (map-score-assign_standard_ranks cmp (slice_stable (better cmp) scores)))
        (slice_stable-perm (better cmp) scores)

  sorted-each :
      (cmp : ClimberScore F → ClimberScore F → ℤ) (P : ClimberScore F → Type 0)
      (scores : List (ClimberScore F))
      → All P scores
      → All P (scores_of (assign_standard_ranks cmp (slice_stable (better cmp) scores)))
  sorted-each cmp P scores h =
      subst (All P) (sym (map-score-assign_standard_ranks cmp (slice_stable (better cmp) scores)))
        (slice_stable-All (better cmp) P scores h)

module _ (fl : Float64) where
  open fl use {F, zero}

  points_round-id :
      (points : Attempt → Problem F → F) (a : Attempt) (p : Option (Problem F)) (s : ClimberScore F)
      → (Points.score_round fl points a p s).registration_id ≡ s.registration_id
  unfolding Points.score_round
  points_round-id points a none s = refl
  points_round-id points a (some p) s =
      counted-id a (Points.set_points fl (points a p) a (problem_score zero a p))
        (add_points fl (points a p) a s)
      ∙ ground arith

  points_loop-id :
      (points : Attempt → Problem F → F) (index : List (String × Problem F))
      (attempts : List Attempt) (s : ClimberScore F)
      → (Points.score_loop fl points index attempts s).registration_id ≡ s.registration_id
  unfolding Points.score_loop
  points_loop-id points index [] s = refl
  points_loop-id points index (a ∷ rest) s =
      points_loop-id points index rest
        (Points.score_round fl points a (lookup a.problem_id index) s)
      ∙ points_round-id points a (lookup a.problem_id index) s

  module _ (unmarshal_fixed : List ℕ → Option (FixedConfig F))
      (unmarshal_decay : List ℕ → Option (DecayConfig F)) where
    pub top_zone-IsScorer : IsScorer (top_zone fl unmarshal_fixed unmarshal_decay)
    unfolding TopZone.score TopZone.rank new_score
    top_zone-IsScorer = record {
      keeps_id = λ id attempts problems config score e.
          ap (λ (o : Option (ClimberScore F)). elim o [ none ↦ id | some x ↦ x.registration_id ])
            (sym e)
          ∙ top_loop-id zero (index_problems problems) attempts _;
      keeps_climbers = λ scores config. sorted-climbers TopZone.cmp_top_zone scores;
      keeps_each = λ P scores config h. sorted-each TopZone.cmp_top_zone P scores h;
    }

    fixed-id :
        (id : String) (attempts : List Attempt) (problems : List (Problem F)) (config : List ℕ)
        (s : ClimberScore F)
        → fixed_score fl unmarshal_fixed id attempts problems config ≡ some s
        → s.registration_id ≡ id
    unfolding fixed_score new_score
    fixed-id id attempts problems config s e =
        elim (Option-cases (parse_config unmarshal_fixed (record { flash_bonus = zero }) config)) [
          | inl n ↦ absurd (ground (arith, e, n))
          | inr (cfg, n) ↦ ground (
            arith,
            e,
            n,
            points_loop-id (Points.fixed_points fl cfg.flash_bonus) (index_problems problems)
                attempts (new_score zero id),
          )
        ]

    pub fixed-IsScorer : IsScorer (fixed fl unmarshal_fixed unmarshal_decay)
    unfolding rank_by_points_desc_attempts_asc
    fixed-IsScorer = record {
      keeps_id = fixed-id;
      keeps_climbers = λ scores config. sorted-climbers (cmp_points_desc fl) scores;
      keeps_each = λ P scores config h. sorted-each (cmp_points_desc fl) P scores h;
    }

    decay-id :
        (id : String) (attempts : List Attempt) (problems : List (Problem F)) (config : List ℕ)
        (s : ClimberScore F)
        → decay_score fl unmarshal_decay id attempts problems config ≡ some s
        → s.registration_id ≡ id
    unfolding decay_score new_score
    decay-id id attempts problems config s e =
        elim (Option-cases (
          parse_config unmarshal_decay
            (record { base_points = none; decay_rate = none; flash_bonus = none }) config)) [
              | inl n ↦ absurd (ground (arith, e, n))
              | inr (cfg, n) ↦ ground (
                arith,
                e,
                n,
                points_loop-id
                    (Points.decay_top fl (Points.resolved fl cfg).0 (Points.resolved fl cfg).1
                      (Points.resolved fl cfg).2)
                    (index_problems problems) attempts (new_score zero id),
              )
            ]

    pub decay-IsScorer : IsScorer (decay fl unmarshal_fixed unmarshal_decay)
    unfolding rank_by_points_desc_attempts_asc
    decay-IsScorer = record {
      keeps_id = decay-id;
      keeps_climbers = λ scores config. sorted-climbers (cmp_points_desc fl) scores;
      keeps_each = λ P scores config h. sorted-each (cmp_points_desc fl) P scores h;
    }
