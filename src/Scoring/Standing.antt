-- ===== src/Scoring/Standing.antt =====
-- The meaning of the standard ranks: a climber's rank is one more than the number of climbers who
-- are strictly better.
use routewerk.Prelude.{
  ℕ, ◌+◌, ◌≡◌, refl, sym, ap, ◌∙◌, true, false, List, [], ◌∷◌, arith, length, count, All,
}
use mathlib.Core.Path.{subst}
use routewerk.Prelude.Lists.{All-imp}
use routewerk.Prelude.Int.{ℤ, pos, eqb_ℤ}
use routewerk.Scoring.Types.{ClimberScore, RankedScore}
use routewerk.Scoring.Sort.{
  IsWeakOrder, IsSorted, slice_stable, slice_stable-All, slice_stable-IsSorted, count-slice_stable,
}
use routewerk.Scoring.Rank.{
  better, number, share_rank, share_ranks, assign_standard_ranks, count_better, score-share_rank,
}

-- A comparator whose sign is a weak order on the scores of `P`, and whose zero is a tie.
pub record IsComparator {F : Type 0} (P : ClimberScore F → Type 0)
    (cmp : ClimberScore F → ClimberScore F → ℤ) : Type 0 where
  pub order : IsWeakOrder P (better cmp)
  pub tie :
      (a b : ClimberScore F)
      → P a
      → P b
      → eqb_ℤ (cmp a b) (pos 0) ≡ true
      → (better cmp a b ≡ false) × (better cmp b a ≡ false)
  pub untie :
      (a b : ClimberScore F)
      → P a
      → P b
      → eqb_ℤ (cmp a b) (pos 0) ≡ false
      → better cmp a b ≡ false
      → better cmp b a ≡ true

-- A rank is one more than the number of scores that are strictly better.
abbrev pub IsRankIn :
    {F : Type 0}
    → (ClimberScore F → ClimberScore F → ℤ)
    → List (ClimberScore F)
    → RankedScore F
    → Type 0
IsRankIn cmp all r = r.rank ≡ pos (count_better cmp r.score all + 1)

module _ {F : Type 0} {P : ClimberScore F → Type 0} {cmp : ClimberScore F → ClimberScore F → ℤ}
    (c : IsComparator P cmp) where
  count_better-tie :
      (a b : ClimberScore F) (ss : List (ClimberScore F))
      → P a
      → P b
      → All P ss
      → better cmp a b ≡ false
      → better cmp b a ≡ false
      → count_better cmp a ss ≡ count_better cmp b ss
  unfolding count
  count_better-tie a b [] pa pb h e k = refl
  count_better-tie a b (t ∷ ss) pa pb h e k = ground (
    arith,
    count_better-tie a b ss pa pb h.1 e k,
    c.order.trans a b t pa pb h.0,
    c.order.trans b a t pb pa h.0,
  )

  -- Those that are no worse than a strictly better climber all count.
  count_better-length :
      (prev x : ClimberScore F) (pre : List (ClimberScore F))
      → P prev
      → P x
      → All P pre
      → better cmp prev x ≡ true
      → All (λ y. better cmp prev y ≡ false) pre
      → count_better cmp x pre ≡ length pre
  unfolding count
  count_better-length prev x [] pp px h e k = refl
  count_better-length prev x (t ∷ pre) pp px h e k =
      ground
        (arith, count_better-length prev x pre pp px h.1 e k.1, c.order.trans x t prev px h.0 pp)

  count_better-sorted :
      (x : ClimberScore F) (ss : List (ClimberScore F))
      → All (λ y. better cmp y x ≡ false) ss
      → count_better cmp x ss ≡ 0
  unfolding count
  count_better-sorted x [] h = refl
  count_better-sorted x (y ∷ ss) h = ground (arith, count_better-sorted x ss h.1)

  not_better_self : (x : ClimberScore F) → P x → better cmp x x ≡ false
  not_better_self x p = ground (arith, c.order.asym x x p p)

  not_better-next :
      (prev x : ClimberScore F) (pre : List (ClimberScore F))
      → P prev
      → P x
      → All P pre
      → better cmp x prev ≡ false
      → All (λ y. better cmp prev y ≡ false) pre
      → All (λ y. better cmp x y ≡ false) pre
  not_better-next prev x [] pp px h e k = tt
  not_better-next prev x (y ∷ pre) pp px h e k =
      (c.order.trans y prev x h.0 pp px k.0 e, not_better-next prev x pre pp px h.1 e k.1)

  -- The state of the second loop at its i-th round, `pre` being the scores that it has passed.
  record IsRound (all pre xs : List (ClimberScore F)) (prev : RankedScore F) (i : ℕ) : Type 0 where
    prev_ok : P prev.score
    pre_ok : All P pre
    xs_ok : All P xs
    ranked : IsRankIn cmp all prev
    behind : All (λ y. better cmp prev.score y ≡ false) pre
    passed : length pre ≡ i
    split :
        (s : ClimberScore F)
        → count_better cmp s all ≡ count_better cmp s pre + count_better cmp s xs

  share_rank-IsRankIn :
      (all pre xs : List (ClimberScore F)) (prev : RankedScore F) (i : ℕ) (x : ClimberScore F)
      → IsRound all pre (x ∷ xs) prev i
      → IsSorted (better cmp) (prev.score ∷ x ∷ xs)
      → IsRankIn cmp all (share_rank cmp prev (record { score = x; rank = pos (i + 1) }))
  unfolding share_rank
  share_rank-IsRankIn all pre xs prev i x h s = ground (
    arith,
    c.tie x prev.score h.xs_ok.0 h.prev_ok,
    c.untie x prev.score h.xs_ok.0 h.prev_ok,
    h.split x,
    h.split prev.score,
    count_better-tie x prev.score pre h.xs_ok.0 h.prev_ok h.pre_ok,
    count_better-tie x prev.score (x ∷ xs) h.xs_ok.0 h.prev_ok h.xs_ok,
    count_better-length prev.score x pre h.prev_ok h.xs_ok.0 h.pre_ok,
    count_better-sorted x (x ∷ xs) (not_better_self x h.xs_ok.0, s.1.0),
  )

  next-IsRound :
      (all pre xs : List (ClimberScore F)) (prev : RankedScore F) (i : ℕ) (x : ClimberScore F)
      → IsRound all pre (x ∷ xs) prev i
      → IsSorted (better cmp) (prev.score ∷ x ∷ xs)
      → (r : RankedScore F) → r.score ≡ x
      → IsRankIn cmp all r
      → IsRound all (x ∷ pre) xs r (i + 1)
  unfolding count
  next-IsRound all pre xs prev i x h s r e k = record {
    prev_ok = rw e h.xs_ok.0;
    pre_ok = (h.xs_ok.0, h.pre_ok);
    xs_ok = h.xs_ok.1;
    ranked = k;
    behind =
        subst (λ t. All (λ y. better cmp t y ≡ false) (x ∷ pre)) (sym e)
          (
            not_better_self x h.xs_ok.0,
            not_better-next prev.score x pre h.prev_ok h.xs_ok.0 h.pre_ok s.0.0 h.behind,
          );
    passed = omega (arith, h.passed);
    split = λ t. ground (arith, h.split t);
  }

  All-share_ranks :
      (all pre xs : List (ClimberScore F)) (prev : RankedScore F) (i : ℕ)
      → IsRound all pre xs prev i
      → IsSorted (better cmp) (prev.score ∷ xs)
      → All (IsRankIn cmp all) (share_ranks cmp prev (number cmp i xs))
  unfolding share_ranks number
  All-share_ranks all pre [] prev i h s = tt
  All-share_ranks all pre (x ∷ xs) prev i h s =
      let r : RankedScore F = share_rank cmp prev (record { score = x; rank = pos (i + 1) }) in
      let e : r.score ≡ x = score-share_rank cmp prev (record { score = x; rank = pos (i + 1) }) in
      let k : IsRankIn cmp all r = share_rank-IsRankIn all pre xs prev i x h s in
      (
        k,
        All-share_ranks all (x ∷ pre) xs r (i + 1) (next-IsRound all pre xs prev i x h s r e k)
            (subst (λ t. IsSorted (better cmp) (t ∷ xs)) (sym e) s.1),
      )

  All-assign_standard_ranks :
      (ss : List (ClimberScore F))
      → All P ss
      → IsSorted (better cmp) ss
      → All (IsRankIn cmp ss) (assign_standard_ranks cmp ss)
  unfolding assign_standard_ranks count
  All-assign_standard_ranks [] h s = tt
  All-assign_standard_ranks (x ∷ xs) h s =
      let k : pos (0 + 1) ≡ pos (count_better cmp x (x ∷ xs) + 1) =
        ap (λ n. pos (n + 1)) (sym (count_better-sorted x (x ∷ xs) (not_better_self x h.0, s.0))) in
      (
        k,
        All-share_ranks (x ∷ xs) (x ∷ []) xs _ 1
            (record {
              prev_ok = h.0;
              pre_ok = (h.0, tt);
              xs_ok = h.1;
              ranked = k;
              behind = (not_better_self x h.0, tt);
              passed = refl;
              split = λ t. ground arith;
            })
            s,
      )

  -- The ranks that a scorer gives: sort by the comparator, then assign standard ranks.
  pub rank-count_better :
      (ss : List (ClimberScore F))
      → All P ss
      → All (IsRankIn cmp ss) (assign_standard_ranks cmp (slice_stable (better cmp) ss))
  rank-count_better ss h =
      let sorted : List (ClimberScore F) = slice_stable (better cmp) ss in
      All-imp _ _ (λ r k. k ∙ ap (λ n. pos (n + 1)) (count-slice_stable (better cmp) _ ss)) _
        (All-assign_standard_ranks sorted (slice_stable-All (better cmp) P ss h)
          (slice_stable-IsSorted P (better cmp) c.order ss h))
