-- ===== src/Scoring/PointsOrder.antt =====
-- cmpPointsDesc (helpers.go) is a weak order on scores whose points are not NaN.
use routewerk.Prelude.{◌≡◌, arith, if◌then◌else◌}
use routewerk.Prelude.Int.{ℤ, pos, negsuc, IsCount, sub64, sub64-IsCount, eq_of_parts}
use routewerk.Scoring.Float.{Float64, IsTotalOrder}
use routewerk.Scoring.Types.{ClimberScore}
use routewerk.Scoring.Standing.{IsComparator}
use routewerk.Scoring.ThreeWay.{
  IsThreeWay, first_nonzero, sub64-IsThreeWay, first_nonzero-IsThreeWay, pull-IsThreeWay,
  IsThreeWay-IsComparator,
}
use routewerk.Scoring.Points.{cmp_points_desc}

-- A score whose points are a number and whose attempts an `int` holds.
pub record IsRankable {F : Type 0} (IsNumber : F → Type 0) (s : ClimberScore F) : Type 0 where
  pub points_number : IsNumber s.points
  pub attempts_to_top_count : IsCount s.attempts_to_top

module _ (fl : Float64) (IsNumber : fl.F → Type 0) (o : IsTotalOrder fl IsNumber) where
  open fl use {F, eq, gt}

  -- The comparison of the points alone.
  cmp_points : F → F → ℤ
  cmp_points a b = if eq a b then pos 0 else if gt a b then negsuc 0 else pos 1

  cmp_points-IsThreeWay : IsThreeWay IsNumber cmp_points
  unfolding cmp_points
  cmp_points-IsThreeWay = record {
    flip_le = λ a b pa pb h.
        ground
          (arith, o.eq_iff a b pa pb, o.eq_iff b a pb pa, o.gt_asym a b pa pb, o.gt_asym b a pb pa);
    flip_ge = λ a b pa pb h.
        ground
          (arith, o.eq_iff a b pa pb, o.eq_iff b a pb pa, o.gt_asym a b pa pb, o.gt_asym b a pb pa);
    trans = λ a b c pa pb pc h g. ground (
      arith,
      o.eq_iff a b pa pb,
      o.eq_iff b c pb pc,
      o.eq_iff a c pa pc,
      o.gt_asym a b pa pb,
      o.gt_asym b c pb pc,
      o.gt_asym a c pa pc,
      o.not_gt_trans c b a pc pb pa,
      o.not_gt_trans a b c pa pb pc,
      o.not_gt_trans b c a pb pc pa,
      o.not_gt_trans a c b pa pc pb,
      o.not_gt_trans c a b pc pa pb,
      o.not_gt_trans b a c pb pa pc,
    );
  }

  cmp_points_desc-first_nonzero :
      (a b : ClimberScore F)
      → IsRankable IsNumber a
      → IsRankable IsNumber b
      → first_nonzero (cmp_points a.points b.points) (sub64 a.attempts_to_top b.attempts_to_top)
        ≡ cmp_points_desc fl a b
  unfolding cmp_points cmp_points_desc
  cmp_points_desc-first_nonzero a b ra rb = ground (
    arith,
    sub64-IsCount a.attempts_to_top b.attempts_to_top ra.attempts_to_top_count
        rb.attempts_to_top_count,
    eq_of_parts (sub64 a.attempts_to_top b.attempts_to_top) (pos 0),
  )

  same-IsThreeWay :
      (c d : ClimberScore F → ClimberScore F → ℤ)
      → ((a b : ClimberScore F) → IsRankable IsNumber a → IsRankable IsNumber b → c a b ≡ d a b)
      → IsThreeWay (IsRankable IsNumber) c
      → IsThreeWay (IsRankable IsNumber) d
  same-IsThreeWay c d e t = record {
    flip_le = λ a b pa pb. rw (← e a b pa pb, ← e b a pb pa) (t.flip_le a b pa pb);
    flip_ge = λ a b pa pb. rw (← e a b pa pb, ← e b a pb pa) (t.flip_ge a b pa pb);
    trans = λ a b c' pa pb pc.
        rw (← e a b pa pb, ← e b c' pb pc, ← e a c' pa pc) (t.trans a b c' pa pb pc);
  }

  pub cmp_points_desc-IsComparator : IsComparator (IsRankable IsNumber) (cmp_points_desc fl)
  cmp_points_desc-IsComparator = IsThreeWay-IsComparator _ _ (
      same-IsThreeWay _ _ cmp_points_desc-first_nonzero (
        first_nonzero-IsThreeWay (IsRankable IsNumber) _ _
          (pull-IsThreeWay (λ s. s.points) cmp_points (λ s r. r.points_number)
            cmp_points-IsThreeWay)
          (sub64-IsThreeWay (IsRankable IsNumber) (λ s. s.attempts_to_top)
            (λ s r. r.attempts_to_top_count))))
