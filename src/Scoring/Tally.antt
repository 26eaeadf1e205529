-- ===== src/Scoring/Tally.antt =====
-- What the loop of Score adds up: the rows of the known problems, their counts and sums, exact as
-- long as an `int` holds them.
use mathlib.Core.List.{append-nil, append_assoc}
use routewerk.Prelude.{
  ℕ, ◌+◌, ◌<◌, ◌≡◌, refl, String, Bool, true, List, [], ◌∷◌, ◌++◌, none, some, arith, count, All,
  if◌then◌else◌, Option-cases, inl, inr,
}
use routewerk.Prelude.Int.{pos, pos_part, IsCount, add64-pos, pos_of_IsCount}
use routewerk.Prelude.Maps.{lookup}
use routewerk.Scoring.Types.{Attempt, Problem, ProblemScore, ClimberScore}
use routewerk.Scoring.Scorer.{deref_int_or, count_top, count_zone, append_problem}
use routewerk.Scoring.CountBack.{IsSound, IsWellFormed, reached}

-- An attempt as the action endpoint leaves it.
pub record IsSoundAttempt (a : Attempt) : Type 0 where
  pub attempts_count : IsCount a.attempts
  pub zone_attempts_count : IsCount (deref_int_or a.zone_attempts (pos 0))
  pub top_zone : a.top_reached ≡ true → a.zone_reached ≡ true

abbrev pub topped : {F : Type 0} → ProblemScore F → Bool
topped p = p.top_reached

module _ {F : Type 0} where
  -- The rows of the attempts whose problem is known, in order.
  unfoldable pub known_rows :
      (Attempt → Problem F → ProblemScore F)
      → List (String × Problem F)
      → List Attempt
      → List (ProblemScore F)
  known_rows row index [] = []
  known_rows row index (a ∷ rest) = elim (lookup a.problem_id index) [
    | none ↦ known_rows row index rest
    | some p ↦ row a p ∷ known_rows row index rest
  ]

  -- The attempts spent on tops, and those spent on zones.
  unfoldable pub sum_tops : List (ProblemScore F) → ℕ
  sum_tops [] = 0
  sum_tops (p ∷ ps) = (if p.top_reached then pos_part p.attempts else 0) + sum_tops ps

  unfoldable pub sum_zones : List (ProblemScore F) → ℕ
  sum_zones [] = 0
  sum_zones (p ∷ ps) =
      (if p.zone_reached then pos_part (deref_int_or p.zone_attempts (pos 0)) else 0) + sum_zones ps

  -- A score with the given fields.
  abbrev pub tally : String → F → ℕ → ℕ → ℕ → ℕ → List (ProblemScore F) → ClimberScore F
  tally id points t z at az rows = record {
    registration_id = id;
    points = points;
    tops = pos t;
    zones = pos z;
    attempts_to_top = pos at;
    attempts_to_zone = pos az;
    per_problem = rows;
  }

  -- The counts and sums of the rows fit an `int`.
  pub record Fits (t z at az : ℕ) (rows : List (ProblemScore F)) : Type 0 where
    pub tops_fit : t + count topped rows < 9_223_372_036_854_775_808
    pub zones_fit : z + count reached rows < 9_223_372_036_854_775_808
    pub attempts_to_top_fit : at + sum_tops rows < 9_223_372_036_854_775_808
    pub attempts_to_zone_fit : az + sum_zones rows < 9_223_372_036_854_775_808

  -- The row of an attempt, whatever its points.
  pub record IsRowOf (a : Attempt) (row : ProblemScore F) : Type 0 where
    pub attempts_kept : row.attempts ≡ a.attempts
    pub zone_attempts_kept : row.zone_attempts ≡ a.zone_attempts
    pub top_kept : row.top_reached ≡ a.top_reached
    pub zone_kept : row.zone_reached ≡ a.zone_reached

  -- One round adds its row to the counts and sums.
  pub tally-round :
      (a : Attempt) (row : ProblemScore F) (id : String) (points : F) (t z at az : ℕ)
      (rows rest : List (ProblemScore F))
      → IsSoundAttempt a
      → IsRowOf a row
      → Fits t z at az (row ∷ rest)
      → append_problem row (count_zone a (count_top a (tally id points t z at az rows)))
        ≡ tally id points
            (t + count topped (row ∷ []))
            (z + count reached (row ∷ []))
            (at + sum_tops (row ∷ []))
            (az + sum_zones (row ∷ []))
            (rows ++ row ∷ [])
  unfolding count sum_tops sum_zones
  tally-round a row id points t z at az rows rest s r f = ground (
    arith,
    add64-pos t 1,
    add64-pos z 1,
    pos_of_IsCount a.attempts s.attempts_count,
    pos_of_IsCount (deref_int_or a.zone_attempts (pos 0)) s.zone_attempts_count,
    add64-pos at (pos_part a.attempts),
    add64-pos az (pos_part (deref_int_or a.zone_attempts (pos 0))),
  )

  -- The counts and sums of one more row.
  pub next-Fits :
      (t z at az : ℕ) (row : ProblemScore F) (rest : List (ProblemScore F))
      → Fits t z at az (row ∷ rest)
      → Fits
          (t + count topped (row ∷ []))
          (z + count reached (row ∷ []))
          (at + sum_tops (row ∷ []))
          (az + sum_zones (row ∷ []))
          rest
  unfolding count sum_tops sum_zones
  next-Fits t z at az row rest f = ground arith

  pub tally-cons :
      (id : String) (points : F) (t z at az : ℕ) (row : ProblemScore F)
      (rows rest : List (ProblemScore F))
      → tally id points
          (t + count topped (row ∷ []) + count topped rest)
          (z + count reached (row ∷ []) + count reached rest)
          (at + sum_tops (row ∷ []) + sum_tops rest)
          (az + sum_zones (row ∷ []) + sum_zones rest)
          ((rows ++ row ∷ []) ++ rest)
        ≡ tally id points
            (t + count topped (row ∷ rest))
            (z + count reached (row ∷ rest))
            (at + sum_tops (row ∷ rest))
            (az + sum_zones (row ∷ rest))
            (rows ++ row ∷ rest)
  unfolding count sum_tops sum_zones
  tally-cons id points t z at az row rows rest = ground (arith, append_assoc rows (row ∷ []) rest)

  pub tally-nil :
      (id : String) (points : F) (t z at az : ℕ) (rows : List (ProblemScore F))
      → tally id points t z at az rows
        ≡ tally id points
            (t + count (topped {F = F}) [])
            (z + count (reached {F = F}) [])
            (at + sum_tops [])
            (az + sum_zones [])
            (rows ++ [])
  unfolding count sum_tops sum_zones
  tally-nil id points t z at az rows = ground (arith, append-nil rows)

  row-IsSound :
      (a : Attempt) (row : ProblemScore F) → IsSoundAttempt a → IsRowOf a row → IsSound row
  row-IsSound a row s r = record {
    attempts_count = rw r.attempts_kept s.attempts_count;
    zone_attempts_count = rw r.zone_attempts_kept s.zone_attempts_count;
    top_zone = rw (r.top_kept, r.zone_kept) s.top_zone;
  }

  pub known_rows-IsSound :
      (row : Attempt → Problem F → ProblemScore F) (index : List (String × Problem F))
      (attempts : List Attempt)
      → ((a : Attempt) (p : Problem F) → IsRowOf a (row a p))
      → All IsSoundAttempt attempts
      → All IsSound (known_rows row index attempts)
  unfolding known_rows
  known_rows-IsSound row index [] r s = tt
  known_rows-IsSound row index (a ∷ rest) r s = elim (Option-cases (lookup a.problem_id index)) [
    | inl e ↦ rw (e, known_rows) (known_rows-IsSound row index rest r s.1)
    | inr (p, e) ↦
        rw (e, known_rows)
          (row-IsSound a (row a p) s.0 (r a p), known_rows-IsSound row index rest r s.1)
  ]

  -- A tally of sound rows that fits is well formed.
  pub tally-IsWellFormed :
      (id : String) (points : F) (rows : List (ProblemScore F))
      → All IsSound rows
      → Fits 0 0 0 0 rows
      → IsWellFormed (
          tally id points
            (count topped rows)
            (count reached rows)
            (sum_tops rows)
            (sum_zones rows)
            rows)
  tally-IsWellFormed id points rows s f = record {
    rows = s;
    zones_counted = refl;
    tops_count = omega (arith, f.tops_fit);
    zones_count = omega (arith, f.zones_fit);
    attempts_to_top_count = omega (arith, f.attempts_to_top_fit);
    attempts_to_zone_count = omega (arith, f.attempts_to_zone_fit);
  }
