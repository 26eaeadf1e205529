-- ===== src/Scoring/PointsScore.antt =====
-- The loop of fixed.Score and decay.Score, and fixed.Score, against their description: the points are
-- the sum, in order, of the points of the topped known rows.
use routewerk.Prelude.{
  ℕ, ◌+◌, ◌≡◌, ap, ◌∙◌, String, List, [], ◌∷◌, ◌++◌, Option, some, inl, inr, arith, count, All,
  if◌then◌else◌, Option-cases,
}
use routewerk.Prelude.Maps.{lookup}
use routewerk.Scoring.Float.{Float64}
use routewerk.Scoring.Types.{Attempt, Problem, ProblemScore, ClimberScore, new_score}
use routewerk.Scoring.Scorer.{
  index_problems, problem_score, parse_config, count_top, count_zone, append_problem,
}
use routewerk.Scoring.CountBack.{reached}
use routewerk.Scoring.Points.{
  FixedConfig, add_points, set_points, score_round, score_loop, fixed_points, fixed_score,
}
use routewerk.Scoring.Tally.{
  IsSoundAttempt, topped, known_rows, sum_tops, sum_zones, tally, Fits, IsRowOf, tally-round,
  next-Fits, tally-cons, tally-nil,
}

module _ (fl : Float64) where
  open fl use {F, zero, add}

  -- The points of the topped rows, added up in order.
  unfoldable pub sum_points : F → List (ProblemScore F) → F
  sum_points acc [] = acc
  sum_points acc (p ∷ ps) = sum_points (if p.top_reached then add acc p.points else acc) ps

  -- The row of an attempt, with the points of its top.
  abbrev pub points_row : (Attempt → Problem F → F) → Attempt → Problem F → ProblemScore F
  points_row points a p = set_points fl (points a p) a (problem_score zero a p)

  points_row-IsRowOf :
      (points : Attempt → Problem F → F) (a : Attempt) (p : Problem F)
      → IsRowOf a (points_row points a p)
  points_row-IsRowOf points a p = ground arith

  new_total : F → F → Attempt → F
  new_total total pts a = if a.top_reached then add total pts else total

  add_points-tally :
      (pts : F) (a : Attempt) (id : String) (total : F) (t z at az : ℕ)
      (rows : List (ProblemScore F))
      → add_points fl pts a (tally id total t z at az rows)
        ≡ tally id (new_total total pts a) t z at az rows
  unfolding new_total
  add_points-tally pts a id total t z at az rows = ground arith

  sum_points-row :
      (points : Attempt → Problem F → F) (a : Attempt) (p : Problem F) (total : F)
      (rest : List (ProblemScore F))
      → sum_points (new_total total (points a p) a) rest
        ≡ sum_points total (points_row points a p ∷ rest)
  unfolding sum_points new_total
  sum_points-row points a p total rest = ground arith

  score_round-tally :
      (points : Attempt → Problem F → F) (a : Attempt) (p : Problem F) (id : String) (total : F)
      (t z at az : ℕ) (rows rest : List (ProblemScore F))
      → IsSoundAttempt a
      → let row : ProblemScore F = points_row points a p in
        Fits t z at az (row ∷ rest)
        → score_round fl points a (some p) (tally id total t z at az rows)
          ≡ tally id
              (new_total total (points a p) a)
              (t + count topped (row ∷ []))
              (z + count reached (row ∷ []))
              (at + sum_tops (row ∷ []))
              (az + sum_zones (row ∷ []))
              (rows ++ row ∷ [])
  unfolding score_round
  score_round-tally points a p id total t z at az rows rest s f =
      ap (λ c. append_problem (points_row points a p) (count_zone a (count_top a c)))
        (add_points-tally (points a p) a id total t z at az rows)
      ∙ tally-round a (points_row points a p) id (new_total total (points a p) a) t z at az rows
          rest s (points_row-IsRowOf points a p) f

  score_loop-tally :
      (points : Attempt → Problem F → F) (index : List (String × Problem F))
      (attempts : List Attempt) (id : String) (total : F) (t z at az : ℕ)
      (rows : List (ProblemScore F))
      → All IsSoundAttempt attempts
      → Fits t z at az (known_rows (points_row points) index attempts)
      → let rest = known_rows (points_row points) index attempts in
        score_loop fl points index attempts (tally id total t z at az rows)
        ≡ tally id
            (sum_points total rest)
            (t + count topped rest)
            (z + count reached rest)
            (at + sum_tops rest)
            (az + sum_zones rest)
            (rows ++ rest)
  unfolding score_loop known_rows sum_points score_round
  score_loop-tally points index [] id total t z at az rows s f = tally-nil id total t z at az rows
  score_loop-tally points index (a ∷ attempts) id total t z at az rows s f =
      elim (Option-cases (lookup a.problem_id index)) [
        | inl e ↦
            rw (e, known_rows)
              (score_loop-tally points index attempts id total t z at az rows s.1
                (rw (e, known_rows) at f))
        | inr (p, e) ↦
            let f' = rw (e, known_rows) at f in
            let row : ProblemScore F = points_row points a p in
            let rest : List (ProblemScore F) = known_rows (points_row points) index attempts in
            let total' : F = new_total total (points a p) a in
            rw (e, known_rows, score_round-tally points a p id total t z at az rows rest s.0 f')
              (score_loop-tally points index attempts id total' _ _ _ _ (rows ++ row ∷ []) s.1
                  (next-Fits t z at az row rest f')
                ∙ tally-cons id (sum_points total' rest) t z at az row rows rest
                ∙ ap
                    (λ v.
                      tally id v (t + count topped (row ∷ rest)) (z + count reached (row ∷ rest))
                        (at + sum_tops (row ∷ rest)) (az + sum_zones (row ∷ rest))
                        (rows ++ row ∷ rest))
                    (sum_points-row points a p total rest))
      ]

  module _ (id : String) (attempts : List Attempt) (problems : List (Problem F))
      (points : Attempt → Problem F → F) where
    -- The rows that a score by points is described by.
    abbrev pub points_rows : List (ProblemScore F)
    points_rows = known_rows (points_row points) (index_problems problems) attempts

    -- The score that the rows describe.
    abbrev pub points_tally : ClimberScore F
    points_tally =
        tally id (sum_points zero points_rows) (count topped points_rows)
          (count reached points_rows) (sum_tops points_rows) (sum_zones points_rows) points_rows

    pub score_loop-points_tally :
        All IsSoundAttempt attempts
        → Fits 0 0 0 0 points_rows
        → score_loop fl points (index_problems problems) attempts (new_score zero id) ≡ points_tally
    unfolding new_score
    score_loop-points_tally s f =
        ground
          (arith, score_loop-tally points (index_problems problems) attempts id zero 0 0 0 0 [] s f)

  -- fixed.Score with a config that parses, over sound attempts whose counts and sums fit an int: it
  -- keeps the rows of the known problems in order, its counts and sums are exactly theirs, and its
  -- points are those of the topped rows added up in order, with the flash bonus of the config.
  pub fixed_score-tally :
      (unmarshal : List ℕ → Option (FixedConfig F)) (id : String) (attempts : List Attempt)
      (problems : List (Problem F)) (raw : List ℕ) (cfg : FixedConfig F)
      → parse_config unmarshal (record { flash_bonus = zero }) raw ≡ some cfg
      → All IsSoundAttempt attempts
      → Fits 0 0 0 0 (points_rows id attempts problems (fixed_points fl cfg.flash_bonus))
      → fixed_score fl unmarshal id attempts problems raw
        ≡ some (points_tally id attempts problems (fixed_points fl cfg.flash_bonus))
  unfolding fixed_score
  fixed_score-tally unmarshal id attempts problems raw cfg e s f =
      rw (e, fixed_score)
        (ap some
          (score_loop-points_tally id attempts problems (fixed_points fl cfg.flash_bonus) s f))
