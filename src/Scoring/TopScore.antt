-- ===== src/Scoring/TopScore.antt =====
-- topZone.Score (topzone.go) against its description: the counts and sums of the known rows.
use routewerk.Prelude.{
  ℕ, ◌+◌, ◌≡◌, refl, ◌∙◌, String, List, [], ◌∷◌, ◌++◌, inl, inr, arith, count, All, Option-cases,
}
use routewerk.Prelude.Maps.{lookup}
use routewerk.Scoring.Types.{Attempt, Problem, ProblemScore, new_score}
use routewerk.Scoring.Scorer.{index_problems, problem_score}
use routewerk.Scoring.CountBack.{IsWellFormed, reached}
use routewerk.Scoring.TopZone.{score_loop, score}
use routewerk.Scoring.Tally.{
  IsSoundAttempt, topped, known_rows, sum_tops, sum_zones, tally, Fits, IsRowOf, tally-round,
  next-Fits, tally-cons, tally-nil, known_rows-IsSound, tally-IsWellFormed,
}

module _ {F : Type 0} where
  problem_score-IsRowOf :
      (zero : F) (a : Attempt) (p : Problem F) → IsRowOf a (problem_score zero a p)
  problem_score-IsRowOf zero a p = record {
    attempts_kept = refl;
    zone_attempts_kept = refl;
    top_kept = refl;
    zone_kept = refl;
  }

module _ {F : Type 0} (zero : F) (index : List (String × Problem F)) where
  score_loop-tally :
      (attempts : List Attempt) (id : String) (points : F) (t z at az : ℕ)
      (rows : List (ProblemScore F))
      → All IsSoundAttempt attempts
      → Fits t z at az (known_rows (problem_score zero) index attempts)
      → let rest = known_rows (problem_score zero) index attempts in
        score_loop zero index attempts (tally id points t z at az rows)
        ≡ tally id points
            (t + count topped rest)
            (z + count reached rest)
            (at + sum_tops rest)
            (az + sum_zones rest)
            (rows ++ rest)
  unfolding score_loop known_rows
  score_loop-tally [] id points t z at az rows s f = tally-nil id points t z at az rows
  score_loop-tally (a ∷ attempts) id points t z at az rows s f =
      elim (Option-cases (lookup a.problem_id index)) [
        | inl e ↦
            rw (e, known_rows)
              (score_loop-tally attempts id points t z at az rows s.1 (rw (e, known_rows) at f))
        | inr (p, e) ↦
            let f' = rw (e, known_rows) at f in
            let row : ProblemScore F = problem_score zero a p in
            let rest : List (ProblemScore F) = known_rows (problem_score zero) index attempts in
            rw
              (
                e,
                known_rows,
                tally-round a row id points t z at az rows rest s.0 (problem_score-IsRowOf zero a p)
                    f',
              )
              (score_loop-tally attempts id points _ _ _ _ (rows ++ row ∷ []) s.1
                  (next-Fits t z at az row rest f')
                ∙ tally-cons id points t z at az row rows rest)
      ]

module _ {F : Type 0} (zero : F) (id : String) (attempts : List Attempt)
    (problems : List (Problem F)) where
  -- The rows that Score is described by.
  abbrev pub rows_of : List (ProblemScore F)
  rows_of = known_rows (problem_score zero) (index_problems problems) attempts

  -- top_zone's Score over sound attempts whose counts and sums fit an int: it keeps the rows of the
  -- known problems in order, awards no points, and its counts and sums are exactly those of its rows.
  pub score-tally :
      All IsSoundAttempt attempts
      → Fits 0 0 0 0 rows_of
      → score zero id attempts problems
        ≡ tally id zero
            (count topped rows_of)
            (count reached rows_of)
            (sum_tops rows_of)
            (sum_zones rows_of)
            rows_of
  unfolding score new_score
  score-tally s f =
      ground
        (arith, score_loop-tally zero (index_problems problems) attempts id zero 0 0 0 0 [] s f)

  pub score-IsWellFormed :
      All IsSoundAttempt attempts
      → Fits 0 0 0 0 rows_of
      → IsWellFormed (score zero id attempts problems)
  score-IsWellFormed s f = rw (score-tally s f) (
      tally-IsWellFormed id zero rows_of
        (known_rows-IsSound (problem_score zero) (index_problems problems) attempts
          (problem_score-IsRowOf zero) s)
        f)
