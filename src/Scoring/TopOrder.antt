-- ===== src/Scoring/TopOrder.antt =====
-- cmpTopZone (topzone.go) is a weak order on well-formed scores.
use routewerk.Prelude.{ℕ, ◌+◌, ◌≤◌, ◌≡◌, refl, arith, length, count, All}
use routewerk.Prelude.Int.{ℤ, pos, sub64, sub64-IsCount}
use routewerk.Scoring.Types.{ProblemScore, ClimberScore}
use routewerk.Scoring.Sort.{slice_stable-All, count-slice_stable}
use routewerk.Scoring.Rank.{better}
use routewerk.Scoring.Standing.{IsComparator}
use routewerk.Scoring.ThreeWay.{
  IsThreeWay, first_nonzero, sub64-IsThreeWay, flip-IsThreeWay, first_nonzero-IsThreeWay,
  pull-IsThreeWay, IsThreeWay-IsComparator,
}
use routewerk.Scoring.TopZone.{
  goodness_tier, cmp_goodness, sorted_by_goodness_desc, cmp_count_back, cmp_top_zone,
}
use routewerk.Scoring.CountBack.{
  IsSound, IsWellFormed, reached, nothing, nothing-IsSound, compare_padded,
  compare_padded-IsThreeWay, first_difference-padded,
}

module _ {F : Type 0} where
  -- cmpTopZone with a count-back over n padded positions.
  top_zone_key : ProblemScore F → ℕ → ClimberScore F → ClimberScore F → ℤ
  top_zone_key d n a b = first_nonzero (sub64 b.tops a.tops) (
      first_nonzero (sub64 b.zones a.zones) (
        first_nonzero (sub64 a.attempts_to_top b.attempts_to_top) (
          first_nonzero (sub64 a.attempts_to_zone b.attempts_to_zone) (
            compare_padded d n (sorted_by_goodness_desc a.per_problem)
              (sorted_by_goodness_desc b.per_problem)))))

  sorted_by_goodness_desc-IsSound :
      (s : ClimberScore F) → IsWellFormed s → All IsSound (sorted_by_goodness_desc s.per_problem)
  unfolding sorted_by_goodness_desc
  sorted_by_goodness_desc-IsSound s w = slice_stable-All (better cmp_goodness) IsSound _ w.rows

  count-sorted :
      (s : ClimberScore F)
      → count reached (sorted_by_goodness_desc s.per_problem) ≡ count reached s.per_problem
  unfolding sorted_by_goodness_desc
  count-sorted s = count-slice_stable (better cmp_goodness) reached s.per_problem

  top_zone_key-IsThreeWay :
      (d : ProblemScore F) (n : ℕ) → IsSound d → IsThreeWay IsWellFormed (top_zone_key d n)
  unfolding top_zone_key
  top_zone_key-IsThreeWay d n sd =
      first_nonzero-IsThreeWay IsWellFormed _ _
        (flip-IsThreeWay IsWellFormed _
          (sub64-IsThreeWay IsWellFormed (λ s. s.tops) (λ s w. w.tops_count)))
        (first_nonzero-IsThreeWay IsWellFormed _ _
          (flip-IsThreeWay IsWellFormed _
            (sub64-IsThreeWay IsWellFormed (λ s. s.zones) (λ s w. w.zones_count)))
          (first_nonzero-IsThreeWay IsWellFormed _ _
            (sub64-IsThreeWay IsWellFormed (λ s. s.attempts_to_top)
              (λ s w. w.attempts_to_top_count))
            (first_nonzero-IsThreeWay IsWellFormed _ _
              (sub64-IsThreeWay IsWellFormed (λ s. s.attempts_to_zone)
                (λ s w. w.attempts_to_zone_count))
              (pull-IsThreeWay (λ s. sorted_by_goodness_desc s.per_problem) (compare_padded d n)
                sorted_by_goodness_desc-IsSound (compare_padded-IsThreeWay d n sd)))))

  top_zone_key_lem :
      (d : ProblemScore F) (n : ℕ) (a b : ClimberScore F)
      → goodness_tier d ≡ pos 0
      → IsWellFormed a
      → IsWellFormed b
      → length (sorted_by_goodness_desc a.per_problem)
          + length (sorted_by_goodness_desc b.per_problem)
        ≤ n
      → cmp_top_zone a b ≡ top_zone_key d n a b
  unfolding cmp_top_zone top_zone_key cmp_count_back
  top_zone_key_lem d n a b e wa wb l = ground (
    arith,
    sub64-IsCount b.tops a.tops wb.tops_count wa.tops_count,
    sub64-IsCount b.zones a.zones wb.zones_count wa.zones_count,
    sub64-IsCount a.attempts_to_top b.attempts_to_top wa.attempts_to_top_count
        wb.attempts_to_top_count,
    sub64-IsCount a.attempts_to_zone b.attempts_to_zone wa.attempts_to_zone_count
        wb.attempts_to_zone_count,
    count-sorted a,
    count-sorted b,
    wa.zones_counted,
    wb.zones_counted,
    first_difference-padded d n (sorted_by_goodness_desc a.per_problem)
        (sorted_by_goodness_desc b.per_problem) e (sorted_by_goodness_desc-IsSound a wa)
        (sorted_by_goodness_desc-IsSound b wb) l,
  )

  -- The length of a score's sorted rows.
  rows : ClimberScore F → ℕ
  rows s = length (sorted_by_goodness_desc s.per_problem)

  cmp_top_zone-key :
      (n : ℕ) (a b : ClimberScore F)
      → IsWellFormed a
      → IsWellFormed b
      → rows a + rows b ≤ n
      → (x : F) → cmp_top_zone a b ≡ top_zone_key (nothing x) n a b
  unfolding rows nothing goodness_tier
  cmp_top_zone-key n a b wa wb l x = top_zone_key_lem (nothing x) n a b refl wa wb l

  pub cmp_top_zone-IsThreeWay : IsThreeWay (IsWellFormed {F = F}) cmp_top_zone
  cmp_top_zone-IsThreeWay = record {
    flip_le = λ a b wa wb.
        let n : ℕ = rows a + rows b in
        let t = top_zone_key-IsThreeWay (nothing a.points) n (nothing-IsSound a.points) in
        rw
          (
            cmp_top_zone-key n a b wa wb (omega arith) a.points,
            cmp_top_zone-key n b a wb wa (omega arith) a.points,
          )
          (t.flip_le a b wa wb);
    flip_ge = λ a b wa wb.
        let n : ℕ = rows a + rows b in
        let t = top_zone_key-IsThreeWay (nothing a.points) n (nothing-IsSound a.points) in
        rw
          (
            cmp_top_zone-key n a b wa wb (omega arith) a.points,
            cmp_top_zone-key n b a wb wa (omega arith) a.points,
          )
          (t.flip_ge a b wa wb);
    trans = λ a b c wa wb wc.
        let n : ℕ = rows a + rows b + rows c in
        let t = top_zone_key-IsThreeWay (nothing a.points) n (nothing-IsSound a.points) in
        rw
          (
            cmp_top_zone-key n a b wa wb (omega arith) a.points,
            cmp_top_zone-key n b c wb wc (omega arith) a.points,
            cmp_top_zone-key n a c wa wc (omega arith) a.points,
          )
          (t.trans a b c wa wb wc);
  }

  pub cmp_top_zone-IsComparator : IsComparator (IsWellFormed {F = F}) cmp_top_zone
  cmp_top_zone-IsComparator =
      IsThreeWay-IsComparator IsWellFormed cmp_top_zone cmp_top_zone-IsThreeWay
