-- ===== src/Prelude/Int.antt =====
-- Signed integers over the native numbers, and Go's `int` (64 bits, two's complement).
use Prim.Native.Nat.{ℕ, suc, ◌+◌, ◌-◌, ◌*◌, ◌%◌, ◌≤◌, ◌<◌}
use mathlib.Core.Path.{◌≡◌, refl}
use mathlib.Core.Bool.{Bool}
use native.Mathlib.Omega.{arith}
use routewerk.Prelude.Tests.{ltb, leb, ◌==◌, if◌then◌else◌}

-- `negsuc n` is -(n + 1).
pub data ℤ : Type 0 where
  pos : ℕ → ℤ
  negsuc : ℕ → ℤ

abbrev pub pos_part : ℤ → ℕ
pos_part (pos n) = n
pos_part (negsuc n) = 0

abbrev pub neg_part : ℤ → ℕ
neg_part (pos n) = 0
neg_part (negsuc n) = suc n

abbrev pub sub_ℕ : ℕ → ℕ → ℤ
sub_ℕ a b = if leb b a then pos (a - b) else negsuc (b - a - 1)

infixl 65 ◌+ℤ◌ ◌-ℤ◌
infixl 70 ◌*ℤ◌
infix 50 ◌≤ℤ◌
unfoldable pub ◌+ℤ◌ : ℤ → ℤ → ℤ
a +ℤ b = sub_ℕ (pos_part a + pos_part b) (neg_part a + neg_part b)

unfoldable pub ◌-ℤ◌ : ℤ → ℤ → ℤ
a -ℤ b = sub_ℕ (pos_part a + neg_part b) (neg_part a + pos_part b)

abbrev pub ◌≤ℤ◌ : ℤ → ℤ → Type 0
a ≤ℤ b = pos_part a + neg_part b ≤ pos_part b + neg_part a

abbrev pub ltb_ℤ : ℤ → ℤ → Bool
ltb_ℤ a b = ltb (pos_part a + neg_part b) (pos_part b + neg_part a)

abbrev pub eqb_ℤ : ℤ → ℤ → Bool
eqb_ℤ a b = (pos_part a + neg_part b) == (pos_part b + neg_part a)

pub eq_of_parts : (a b : ℤ) → pos_part a + neg_part b ≡ pos_part b + neg_part a → a ≡ b
eq_of_parts a b h = ground arith

-- The bits of an `int` read as a signed number.
abbrev signed : ℕ → ℤ
signed u =
    if ltb u 9_223_372_036_854_775_808 then pos u else negsuc (18_446_744_073_709_551_615 - u)

-- An `int` operation keeps the low 64 bits of the exact result.
unfoldable pub wrap64 : ℤ → ℤ
wrap64 (pos n) = signed (n % 18_446_744_073_709_551_616)
wrap64 (negsuc n) = signed (18_446_744_073_709_551_615 - n % 18_446_744_073_709_551_616)

unfoldable pub add64 : ℤ → ℤ → ℤ
unfolding wrap64 ◌+ℤ◌
add64 a b = wrap64 (a +ℤ b)

unfoldable pub sub64 : ℤ → ℤ → ℤ
unfolding wrap64 ◌-ℤ◌
sub64 a b = wrap64 (a -ℤ b)

-- The exact product.
unfoldable pub ◌*ℤ◌ : ℤ → ℤ → ℤ
a *ℤ b =
    sub_ℕ (pos_part a * pos_part b + neg_part a * neg_part b)
      (pos_part a * neg_part b + neg_part a * pos_part b)

unfoldable pub mul64 : ℤ → ℤ → ℤ
unfolding wrap64 ◌*ℤ◌
mul64 a b = wrap64 (a *ℤ b)

-- A count that an `int` holds.
abbrev pub IsCount : ℤ → Type 0
IsCount z = (neg_part z ≡ 0) × (pos_part z < 9_223_372_036_854_775_808)

pub add64-IsCount :
    (a b : ℤ)
    → IsCount a
    → IsCount b
    → pos_part a + pos_part b < 9_223_372_036_854_775_808
    → (pos_part (add64 a b) ≡ pos_part a + pos_part b) × (neg_part (add64 a b) ≡ 0)
unfolding add64
add64-IsCount (pos a) (pos b) h k l = ground arith
add64-IsCount (pos a) (negsuc b) h k l = absurd (omega arith)
add64-IsCount (negsuc a) b h k l = absurd (omega arith)

-- The difference of two counts does not wrap, so its sign compares them.
pub sub64-IsCount :
    (a b : ℤ)
    → IsCount a
    → IsCount b
    → pos_part (sub64 a b) + pos_part b ≡ neg_part (sub64 a b) + pos_part a
unfolding sub64
sub64-IsCount (pos a) (pos b) h k = ground arith
sub64-IsCount (pos a) (negsuc b) h k = absurd (omega arith)
sub64-IsCount (negsuc a) b h k = absurd (omega arith)

pub add64-pos : (a b : ℕ) → a + b < 9_223_372_036_854_775_808 → add64 (pos a) (pos b) ≡ pos (a + b)
unfolding add64
add64-pos a b h = ground arith

pub pos_of_IsCount : (z : ℤ) → IsCount z → z ≡ pos (pos_part z)
pos_of_IsCount (pos n) h = refl
pos_of_IsCount (negsuc n) h = absurd (omega arith)
