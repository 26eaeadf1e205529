-- ===== src/Scoring/DecayScore.antt =====
-- decay.Score against its description: the points are the sum, in order, of what the rule gives for the
-- topped known rows.
use routewerk.Prelude.{
  ◌-◌, ◌<◌, ◌==◌, refl, sym, ℕ, ◌≡◌, ap, ◌∙◌, String, List, [], ◌∷◌, Option, none, some, inl, inr,
  arith, count, All, if◌then◌else◌, Option-cases, Bool-cases,
}
use mathlib.Core.Path.{subst}
use routewerk.Prelude.Int.{pos, pos_part, sub64, pos_of_IsCount}
use routewerk.Prelude.Maps.{lookup}
use routewerk.Scoring.Float.{Float64}
use routewerk.Scoring.Types.{Attempt, Problem}
use routewerk.Scoring.Scorer.{index_problems, problem_score, parse_config, deref_float_or}
use routewerk.Scoring.CountBack.{reached}
use routewerk.Scoring.Points.{
  DecayConfig, set_points, decay_points, decay_top, decay_score, resolved,
}
use routewerk.Scoring.Tally.{IsSoundAttempt, topped, known_rows, sum_tops, sum_zones, tally, Fits}
use routewerk.Scoring.PointsScore.{
  sum_points, points_row, points_rows, points_tally, score_loop-points_tally,
}

module _ (fl : Float64) where
  open fl use {F, zero, one, of_int, add, mul, div}

  -- What a config gives, or a default.
  abbrev given : F → Option F → F
  given default none = default
  given default (some x) = x

  -- The rule as the comment on `decay` describes it: base / (1 + rate * (attempts - 1)) for a top, and
  -- the flash bonus for one at the first attempt; a base of 1000, a rate of a tenth and no bonus
  -- unless the config says otherwise. At no attempts at all it is the base.
  abbrev pub decay_rule : DecayConfig F → Attempt → Problem F → F
  decay_rule cfg a p =
      let n = pos_part a.attempts in
      let base = given (of_int (pos 1_000)) cfg.base_points in
      let rate = given (div one (of_int (pos 10))) cfg.decay_rate in
      let pts = div base (add one (mul rate (of_int (pos (n - 1))))) in
      if n == 1 then add pts (given zero cfg.flash_bonus) else pts

  deref_float_or-given : (x : Option F) (default : F) → deref_float_or x default ≡ given default x
  deref_float_or-given none default = refl
  deref_float_or-given (some x) default = refl

  decay_points-count :
      (base rate : F) (n : ℕ)
      → n < 9_223_372_036_854_775_808
      → decay_points fl base rate (pos n) ≡ div base (add one (mul rate (of_int (pos (n - 1)))))
  unfolding decay_points sub64
  decay_points-count base rate n l =
      ap (λ k. div base (add one (mul rate (of_int k)))) (ground arith)

  decay_top-decay_rule :
      (cfg : DecayConfig F) (a : Attempt) (p : Problem F)
      → IsSoundAttempt a
      → decay_top fl (resolved fl cfg).0 (resolved fl cfg).1 (resolved fl cfg).2 a p
        ≡ decay_rule cfg a p
  unfolding decay_top
  decay_top-decay_rule cfg a p s =
      let n = pos_part a.attempts in
      let base = given (of_int (pos 1_000)) cfg.base_points in
      let rate = given (div one (of_int (pos 10))) cfg.decay_rate in
      let counted = pos_of_IsCount a.attempts s.attempts_count in
      let based = deref_float_or-given cfg.base_points (of_int (pos 1_000)) in
      let rated = deref_float_or-given cfg.decay_rate (div one (of_int (pos 10))) in
      let bonus = deref_float_or-given cfg.flash_bonus zero in
      let worth : decay_points fl (resolved fl cfg).0 (resolved fl cfg).1 a.attempts
          ≡ div base (add one (mul rate (of_int (pos (n - 1))))) =
        ap (λ x. decay_points fl x (resolved fl cfg).1 a.attempts) based
        ∙ ap (λ x. decay_points fl base x a.attempts) rated
        ∙ ap (λ k. decay_points fl base rate k) counted
        ∙ decay_points-count base rate n (omega (arith, s.attempts_count.1)) in
      elim (Bool-cases (n == 1)) [
        | inl e ↦ ground (arith, worth, counted, bonus, e)
        | inr e ↦ ground (arith, worth, counted, bonus, e)
      ]

  known_rows-same :
      (f g : Attempt → Problem F → F) (index : List (String × Problem F)) (attempts : List Attempt)
      → ((a : Attempt) (p : Problem F) → IsSoundAttempt a → f a p ≡ g a p)
      → All IsSoundAttempt attempts
      → known_rows (points_row fl f) index attempts ≡ known_rows (points_row fl g) index attempts
  unfolding known_rows
  known_rows-same f g index [] h s = refl
  known_rows-same f g index (a ∷ attempts) h s =
      let rest = known_rows-same f g index attempts h s.1 in
      elim (Option-cases (lookup a.problem_id index)) [
        | inl e ↦ ground (arith, e, rest)
        | inr (p, e) ↦
            let row = ap (λ x. set_points fl x a (problem_score zero a p)) (h a p s.0) in
            rw (e, known_rows)
              (ap (λ x. x ∷ known_rows (points_row fl f) index attempts) row
                ∙ ap (λ x. points_row fl g a p ∷ x) rest)
      ]

  -- decay.Score with a config that parses, over sound attempts whose counts and sums fit an int: it
  -- keeps the rows of the known problems in order, its counts and sums are exactly theirs, and its
  -- points are those of the topped rows added up in order, each worth what `decay_rule` gives it.
  pub decay_score-tally :
      (unmarshal : List ℕ → Option (DecayConfig F)) (id : String) (attempts : List Attempt)
      (problems : List (Problem F)) (raw : List ℕ) (cfg : DecayConfig F)
      → parse_config unmarshal
          (record { base_points = none; decay_rate = none; flash_bonus = none })
          raw
        ≡ some cfg
      → All IsSoundAttempt attempts
      → Fits 0 0 0 0 (points_rows fl id attempts problems (decay_rule cfg))
      → decay_score fl unmarshal id attempts problems raw
        ≡ some (points_tally fl id attempts problems (decay_rule cfg))
  unfolding decay_score
  decay_score-tally unmarshal id attempts problems raw cfg e s f =
      let top = decay_top fl (resolved fl cfg).0 (resolved fl cfg).1 (resolved fl cfg).2 in
      let same : points_rows fl id attempts problems top
          ≡ points_rows fl id attempts problems (decay_rule cfg) =
        known_rows-same top (decay_rule cfg) (index_problems problems) attempts
          (decay_top-decay_rule cfg) s in
      rw (e, decay_score)
        (ap some (
          score_loop-points_tally fl id attempts problems top s (subst (Fits 0 0 0 0) (sym same) f)
          ∙ ap
              (λ rows.
                tally id (sum_points fl zero rows) (count topped rows) (count reached rows)
                  (sum_tops rows) (sum_zones rows) rows)
              same))
