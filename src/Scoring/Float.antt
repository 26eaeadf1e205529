-- ===== src/Scoring/Float.antt =====
-- Go's float64 as the scorers use it: an interface, since the checker has no floats. The law is that
-- of IEEE 754 comparison on the values that are not NaN.
use routewerk.Prelude.{◌≡◌, Bool, true, false, ◌↔◌}
use routewerk.Prelude.Int.{ℤ}

pub record Float64 : Type 1 where
  pub F : Type 0
  pub zero : F
  pub one : F
  pub of_int : ℤ → F
  pub add : F → F → F
  pub mul : F → F → F
  pub div : F → F → F
  pub eq : F → F → Bool
  pub gt : F → F → Bool

pub record IsTotalOrder (fl : Float64) (IsNumber : fl.F → Type 0) : Type 0 where
  pub eq_iff :
      (a b : fl.F)
      → IsNumber a
      → IsNumber b
      → (fl.eq a b ≡ true) ↔ ((fl.gt a b ≡ false) × (fl.gt b a ≡ false))
  pub gt_asym : (a b : fl.F) → IsNumber a → IsNumber b → fl.gt a b ≡ true → fl.gt b a ≡ false
  pub not_gt_trans :
      (a b c : fl.F)
      → IsNumber a
      → IsNumber b
      → IsNumber c
      → fl.gt a b ≡ false
      → fl.gt b c ≡ false
      → fl.gt a c ≡ false
