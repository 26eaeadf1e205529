-- ===== src/Leaderboard/Bounds.antt =====
-- The rows of competition_attempts that the action endpoint leaves fit the sums of topZone.Score, as
-- aggregateLeaderboard (internal/handler/comp_leaderboard.go) gives them to it.
use routewerk.Prelude.{
  ℕ, ◌*◌, ◌≤◌, ◌<◌, ◌≡◌, String, Bool, str_eq, inl, inr, List, [], ◌∷◌, Option, none, some, arith,
  All, keep, count, length, Option-cases, Bool-cases,
}
use routewerk.Prelude.Int.{ℤ, pos, pos_part, neg_part}
use routewerk.Prelude.Maps.{lookup}
use routewerk.Attempts.Types.{Attempt as Row}
use routewerk.Attempts.Sound.{IsSoundState, ZoneAgrees}
use routewerk.Scoring.Types.{Attempt, Problem, ProblemScore}
use routewerk.Scoring.Scorer.{deref_int_or, problem_score}
use routewerk.Scoring.CountBack.{reached}
use routewerk.Scoring.Tally.{IsSoundAttempt, topped, known_rows, sum_tops, sum_zones, Fits}
use routewerk.Leaderboard.Board.{to_scorer_attempt}
use routewerk.Leaderboard.Grouping.{own_attempts}

-- What a scorer's row of a sound state is: sound, with its two numbers in an int4.
pub record IsSmall (a : Attempt) : Type 0 where
  pub sound : IsSoundAttempt a
  pub attempts_small : pos_part a.attempts < 2_147_483_648
  pub zone_small : pos_part (deref_int_or a.zone_attempts (pos 0)) < 2_147_483_648

zone-IsSmall :
    (z : Option ℤ) (reached : Bool) (attempts : ℤ)
    → ZoneAgrees z reached attempts
    → neg_part attempts ≡ 0
    → pos_part attempts < 2_147_483_648
    → (neg_part (deref_int_or z (pos 0)) ≡ 0) × (pos_part (deref_int_or z (pos 0)) < 2_147_483_648)
zone-IsSmall none reached attempts h n s = ground arith
zone-IsSmall (some z) reached attempts h n s = ground arith

to_scorer_attempt-IsSmall : (r : Row) → IsSoundState r.state → IsSmall (to_scorer_attempt r)
to_scorer_attempt-IsSmall r h =
    let z =
      zone-IsSmall r.zone_attempts r.zone_reached r.attempts h.zone_agrees h.not_negative h.small in
    record {
      sound = record {
        attempts_count = (h.not_negative, omega (arith, h.small));
        zone_attempts_count = (z.0, omega (arith, z.1));
        top_zone = h.top_zone;
      };
      attempts_small = h.small;
      zone_small = z.1;
    }

pub own_attempts-IsSmall :
    (id : String) (rows : List Row)
    → All (λ (r : Row). IsSoundState r.state) rows
    → All IsSmall (own_attempts id rows)
unfolding keep
own_attempts-IsSmall id [] h = tt
own_attempts-IsSmall id (r ∷ rows) h = elim (Bool-cases (str_eq r.registration_id id)) [
  | inl e ↦ rw (e, keep) (to_scorer_attempt-IsSmall r h.0, own_attempts-IsSmall id rows h.1)
  | inr e ↦ rw (e, keep) (own_attempts-IsSmall id rows h.1)
]

length-own_attempts-le :
    (id : String) (rows : List Row) → length (own_attempts id rows) ≤ length rows
unfolding keep
length-own_attempts-le id [] = omega arith
length-own_attempts-le id (r ∷ rows) = ground (arith, length-own_attempts-le id rows)

module _ {F : Type 0} (zero : F) (index : List (String × Problem F)) where
  abbrev rows : List Attempt → List (ProblemScore F)
  rows attempts = known_rows (problem_score zero) index attempts

  -- The counts and sums of the known rows, against the number of attempts.
  record AreBounded (n : ℕ) (ps : List (ProblemScore F)) : Type 0 where
    pub tops_bound : count topped ps ≤ n
    pub zones_bound : count reached ps ≤ n
    pub top_sum_bound : sum_tops ps ≤ 2_147_483_647 * n
    pub zone_sum_bound : sum_zones ps ≤ 2_147_483_647 * n

  rows-AreBounded :
      (attempts : List Attempt)
      → All IsSmall attempts
      → AreBounded (length attempts) (rows attempts)
  unfolding known_rows count sum_tops sum_zones
  rows-AreBounded [] h = ground arith
  rows-AreBounded (a ∷ rest) h =
      let b = rows-AreBounded rest h.1 in
      elim (Option-cases (lookup a.problem_id index)) [
        | inl e ↦
            rw (e, known_rows)
              (ground (arith, b.tops_bound, b.zones_bound, b.top_sum_bound, b.zone_sum_bound))
        | inr (p, e) ↦
            rw (e, known_rows)
              (ground (
                arith, b.tops_bound, b.zones_bound, b.top_sum_bound, b.zone_sum_bound,
                h.0.attempts_small, h.0.zone_small,
              ))
      ]

  pub own_rows-Fits :
      (id : String) (table : List Row)
      → All (λ (r : Row). IsSoundState r.state) table
      → length table < 4_294_967_296
      → Fits 0 0 0 0 (rows (own_attempts id table))
  own_rows-Fits id table h few =
      let b = rows-AreBounded (own_attempts id table) (own_attempts-IsSmall id table h) in
      record {
        tops_fit = omega (arith, b.tops_bound, length-own_attempts-le id table);
        zones_fit = omega (arith, b.zones_bound, length-own_attempts-le id table);
        attempts_to_top_fit = omega (arith, b.top_sum_bound, length-own_attempts-le id table);
        attempts_to_zone_fit = omega (arith, b.zone_sum_bound, length-own_attempts-le id table);
      }
