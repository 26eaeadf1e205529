-- ===== src/Scoring/CountBack.antt =====
-- The order of cmpTopZone (topzone.go) on the scores that the scorer and the action endpoint build:
-- there count-back is a weak order, so the standings are well defined.
use routewerk.Prelude.{
  ℕ, zero, suc, ◌+◌, ◌≤◌, ◌≡◌, refl, sym, Bool, true, false, List, [], ◌∷◌, none, arith, length,
  count, All, if◌then◌else◌,
}
use mathlib.Core.Path.{subst, fun_ext}
use routewerk.Prelude.Int.{ℤ, pos, IsCount, sub64, sub64-IsCount, eqb_ℤ, eq_of_parts}
use routewerk.Scoring.Types.{ProblemScore, ClimberScore}
use routewerk.Scoring.ThreeWay.{
  IsThreeWay, first_nonzero, sub64-IsThreeWay, flip-IsThreeWay, zero-IsThreeWay,
  first_nonzero-IsThreeWay, pull-IsThreeWay,
}
use routewerk.Scoring.Scorer.{deref_int_or}
use routewerk.Scoring.TopZone.{goodness_tier, cmp_goodness, first_difference}

-- A result row as the action endpoint leaves it: a top implies the zone.
pub record IsSound {F : Type 0} (p : ProblemScore F) : Type 0 where
  pub attempts_count : IsCount p.attempts
  pub zone_attempts_count : IsCount (deref_int_or p.zone_attempts (pos 0))
  pub top_zone : p.top_reached ≡ true → p.zone_reached ≡ true

abbrev pub reached : {F : Type 0} → ProblemScore F → Bool
reached p = p.zone_reached

-- A score whose rows are sound and whose zone count is that of its rows.
pub record IsWellFormed {F : Type 0} (s : ClimberScore F) : Type 0 where
  pub rows : All IsSound s.per_problem
  pub zones_counted : s.zones ≡ pos (count reached s.per_problem)
  pub tops_count : IsCount s.tops
  pub zones_count : IsCount s.zones
  pub attempts_to_top_count : IsCount s.attempts_to_top
  pub attempts_to_zone_count : IsCount s.attempts_to_zone

sub64-zero : sub64 (pos 0) (pos 0) ≡ pos 0
unfolding sub64
sub64-zero = refl

module _ {F : Type 0} where
  goodness_tier-IsCount : (p : ProblemScore F) → IsCount (goodness_tier p)
  unfolding goodness_tier
  goodness_tier-IsCount p = ground arith

  -- cmpGoodness compares the tiers, and within a tier the attempts that it counts.
  abbrev key : ProblemScore F → ℤ
  key p =
      if eqb_ℤ (goodness_tier p) (pos 2)
      then p.attempts
      else if eqb_ℤ (goodness_tier p) (pos 1)
      then deref_int_or p.zone_attempts (pos 0)
      else pos 0

  key-IsCount : (p : ProblemScore F) → IsSound p → IsCount (key p)
  unfolding goodness_tier
  key-IsCount p s = ground arith

  cmp_goodness-key :
      (a b : ProblemScore F)
      → cmp_goodness a b
        ≡ first_nonzero (sub64 (goodness_tier b) (goodness_tier a)) (sub64 (key a) (key b))
  unfolding cmp_goodness
  cmp_goodness-key a b = ground (
    arith,
    sub64-IsCount (goodness_tier b) (goodness_tier a) (goodness_tier-IsCount b)
        (goodness_tier-IsCount a),
    eq_of_parts (goodness_tier a) (goodness_tier b),
    sub64-zero,
  )

  cmp_goodness-IsThreeWay : IsThreeWay (IsSound {F = F}) cmp_goodness
  cmp_goodness-IsThreeWay =
      subst (IsThreeWay IsSound) (fun_ext λ a. fun_ext λ b. sym (cmp_goodness-key a b)) (
        first_nonzero-IsThreeWay IsSound _ _
          (flip-IsThreeWay IsSound _
            (sub64-IsThreeWay IsSound goodness_tier (λ p s. goodness_tier-IsCount p)))
          (sub64-IsThreeWay IsSound key key-IsCount))

  -- A row with neither top nor zone, which stands for a missing position.
  unfoldable pub nothing : F → ProblemScore F
  nothing x = record {
    problem_id = "";
    attempts = pos 0;
    zone_attempts = none;
    points = x;
    top_reached = false;
    zone_reached = false;
    sort_order = pos 0;
  }

  pub nothing-IsSound : (x : F) → IsSound (nothing x)
  unfolding nothing
  nothing-IsSound x = ground arith

  head_or : ProblemScore F → List (ProblemScore F) → ProblemScore F
  head_or d [] = d
  head_or d (p ∷ ps) = p

  tail : List (ProblemScore F) → List (ProblemScore F)
  tail [] = []
  tail (p ∷ ps) = ps

  -- The comparison of the first n positions, a missing one being `d`.
  pub compare_padded : ProblemScore F → ℕ → List (ProblemScore F) → List (ProblemScore F) → ℤ
  compare_padded d zero ps qs = pos 0
  compare_padded d (suc n) ps qs =
      first_nonzero (cmp_goodness (head_or d ps) (head_or d qs))
        (compare_padded d n (tail ps) (tail qs))

  head_or-IsSound :
      (d : ProblemScore F) (ps : List (ProblemScore F))
      → IsSound d
      → All IsSound ps
      → IsSound (head_or d ps)
  unfolding head_or
  head_or-IsSound d [] sd h = sd
  head_or-IsSound d (p ∷ ps) sd h = h.0

  tail-IsSound : (ps : List (ProblemScore F)) → All IsSound ps → All IsSound (tail ps)
  unfolding tail
  tail-IsSound [] h = tt
  tail-IsSound (p ∷ ps) h = h.1

  pub compare_padded-IsThreeWay :
      (d : ProblemScore F) (n : ℕ) → IsSound d → IsThreeWay (All IsSound) (compare_padded d n)
  unfolding compare_padded
  compare_padded-IsThreeWay d zero sd = zero-IsThreeWay (All IsSound)
  compare_padded-IsThreeWay d (suc n) sd =
      first_nonzero-IsThreeWay (All IsSound) _ _
        (pull-IsThreeWay (head_or d) cmp_goodness (λ ps h. head_or-IsSound d ps sd h)
          cmp_goodness-IsThreeWay)
        (pull-IsThreeWay tail (compare_padded d n) tail-IsSound (compare_padded-IsThreeWay d n sd))

  cmp_goodness-nothing :
      (p q : ProblemScore F)
      → goodness_tier p ≡ pos 0
      → goodness_tier q ≡ pos 0
      → cmp_goodness p q ≡ pos 0
  unfolding cmp_goodness
  cmp_goodness-nothing p q h k = ground arith

  tier_of_not_reached :
      (p : ProblemScore F) → IsSound p → reached p ≡ false → goodness_tier p ≡ pos 0
  unfolding goodness_tier
  tier_of_not_reached p s h = ground arith

  -- Rows that compare equal reach the zone alike.
  reached-cmp_goodness :
      (p q : ProblemScore F)
      → IsSound p
      → IsSound q
      → eqb_ℤ (cmp_goodness p q) (pos 0) ≡ true
      → reached p ≡ reached q
  unfolding goodness_tier
  reached-cmp_goodness p q s t h = ground (
    arith,
    cmp_goodness-key p q,
    sub64-IsCount (goodness_tier q) (goodness_tier p) (goodness_tier-IsCount q)
        (goodness_tier-IsCount p),
  )

  compare_padded-left :
      (d : ProblemScore F) (n : ℕ) (qs : List (ProblemScore F))
      → goodness_tier d ≡ pos 0
      → All IsSound qs
      → count reached qs ≡ 0
      → compare_padded d n [] qs ≡ pos 0
  unfolding compare_padded head_or tail count
  compare_padded-left d zero qs e h k = refl
  compare_padded-left d (suc n) [] e h k =
      ground (arith, cmp_goodness-nothing d d e e, compare_padded-left d n [] e tt refl)
  compare_padded-left d (suc n) (q ∷ qs) e h k = ground (
    arith,
    cmp_goodness-nothing d q e,
    tier_of_not_reached q h.0,
    compare_padded-left d n qs e h.1,
  )

  compare_padded-right :
      (d : ProblemScore F) (n : ℕ) (ps : List (ProblemScore F))
      → goodness_tier d ≡ pos 0
      → All IsSound ps
      → count reached ps ≡ 0
      → compare_padded d n ps [] ≡ pos 0
  unfolding compare_padded head_or tail count
  compare_padded-right d zero ps e h k = refl
  compare_padded-right d (suc n) [] e h k =
      ground (arith, cmp_goodness-nothing d d e e, compare_padded-right d n [] e tt refl)
  compare_padded-right d (suc n) (p ∷ ps) e h k = ground (
    arith,
    cmp_goodness-nothing p d,
    tier_of_not_reached p h.0,
    compare_padded-right d n ps e h.1,
  )

  -- Where as many rows reach the zone on both sides, padding changes nothing.
  pub first_difference-padded :
      (d : ProblemScore F) (n : ℕ) (ps qs : List (ProblemScore F))
      → goodness_tier d ≡ pos 0
      → All IsSound ps
      → All IsSound qs
      → length ps + length qs ≤ n
      → count reached ps ≡ count reached qs
      → first_difference ps qs ≡ compare_padded d n ps qs
  unfolding first_difference compare_padded head_or tail count
  first_difference-padded d n [] qs e h k l c = sym (compare_padded-left d n qs e k (sym c))
  first_difference-padded d n (p ∷ ps) [] e h k l c = sym (compare_padded-right d n (p ∷ ps) e h c)
  first_difference-padded d zero (p ∷ ps) (q ∷ qs) e h k l c = absurd (omega arith)
  first_difference-padded d (suc n) (p ∷ ps) (q ∷ qs) e h k l c = ground (
    arith,
    reached-cmp_goodness p q h.0 k.0,
    first_difference-padded d n ps qs e h.1 k.1 (omega arith),
  )
