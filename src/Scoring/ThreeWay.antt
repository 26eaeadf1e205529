-- ===== src/Scoring/ThreeWay.antt =====
-- Comparators as Go writes them, `int` results read by their sign: how they combine.
use routewerk.Prelude.{arith, if◌then◌else◌}
use routewerk.Prelude.Int.{ℤ, pos, ◌≤ℤ◌, eqb_ℤ, IsCount, sub64, sub64-IsCount}
use routewerk.Scoring.Types.{ClimberScore}
use routewerk.Scoring.Standing.{IsComparator}

pub record IsThreeWay {ℓ κ} {A : Type ℓ} (P : A → Type κ) (cmp : A → A → ℤ) : Type (ℓ ⊔ κ) where
  pub flip_le : (a b : A) → P a → P b → cmp a b ≤ℤ pos 0 → pos 0 ≤ℤ cmp b a
  pub flip_ge : (a b : A) → P a → P b → pos 0 ≤ℤ cmp a b → cmp b a ≤ℤ pos 0
  pub trans : (a b c : A) → P a → P b → P c → cmp a b ≤ℤ pos 0 → cmp b c ≤ℤ pos 0 → cmp a c ≤ℤ pos 0

-- The first result that is not 0.
abbrev pub first_nonzero : ℤ → ℤ → ℤ
first_nonzero c d = if eqb_ℤ c (pos 0) then d else c

module _ {ℓ κ} {A : Type ℓ} (P : A → Type κ) where
  pub sub64-IsThreeWay :
      (key : A → ℤ)
      → ((a : A) → P a → IsCount (key a))
      → IsThreeWay P (λ a b. sub64 (key a) (key b))
  sub64-IsThreeWay key k = record {
    flip_le = λ a b pa pb h. omega (
      arith,
      sub64-IsCount (key a) (key b) (k a pa) (k b pb),
      sub64-IsCount (key b) (key a) (k b pb) (k a pa),
    );
    flip_ge = λ a b pa pb h. omega (
      arith,
      sub64-IsCount (key a) (key b) (k a pa) (k b pb),
      sub64-IsCount (key b) (key a) (k b pb) (k a pa),
    );
    trans = λ a b c pa pb pc h g. omega (
      arith,
      sub64-IsCount (key a) (key b) (k a pa) (k b pb),
      sub64-IsCount (key b) (key c) (k b pb) (k c pc),
      sub64-IsCount (key a) (key c) (k a pa) (k c pc),
    );
  }

  pub flip-IsThreeWay : (cmp : A → A → ℤ) → IsThreeWay P cmp → IsThreeWay P (λ a b. cmp b a)
  flip-IsThreeWay cmp t = record {
    flip_le = λ a b pa pb. t.flip_le b a pb pa;
    flip_ge = λ a b pa pb. t.flip_ge b a pb pa;
    trans = λ a b c pa pb pc h g. t.trans c b a pc pb pa g h;
  }

  pub zero-IsThreeWay : IsThreeWay P (λ a b. pos 0)
  zero-IsThreeWay = record {
    flip_le = λ a b pa pb h. h;
    flip_ge = λ a b pa pb h. h;
    trans = λ a b c pa pb pc h g. h;
  }

  first_nonzero-trans :
      (c d : A → A → ℤ)
      → IsThreeWay P c
      → IsThreeWay P d
      → (x y z : A) → P x
      → P y
      → P z
      → first_nonzero (c x y) (d x y) ≤ℤ pos 0
      → first_nonzero (c y z) (d y z) ≤ℤ pos 0
      → first_nonzero (c x z) (d x z) ≤ℤ pos 0
  first_nonzero-trans c d s t x y z px py pz h g = ground (
    arith,
    s.trans x y z px py pz,
    s.trans z x y pz px py,
    s.trans y z x py pz px,
    s.flip_le x y px py,
    s.flip_le y z py pz,
    s.flip_ge x z px pz,
    s.flip_ge x y px py,
    s.flip_ge y z py pz,
    s.flip_le z x pz px,
    s.flip_le z y pz py,
    s.flip_le y x py px,
    t.trans x y z px py pz,
  )

  pub first_nonzero-IsThreeWay :
      (c d : A → A → ℤ)
      → IsThreeWay P c
      → IsThreeWay P d
      → IsThreeWay P (λ a b. first_nonzero (c a b) (d a b))
  first_nonzero-IsThreeWay c d s t = record {
    flip_le = λ a b pa pb h. ground (
      arith,
      s.flip_le a b pa pb,
      s.flip_ge a b pa pb,
      s.flip_le b a pb pa,
      s.flip_ge b a pb pa,
      t.flip_le a b pa pb,
    );
    flip_ge = λ a b pa pb h. ground (
      arith,
      s.flip_le a b pa pb,
      s.flip_ge a b pa pb,
      s.flip_le b a pb pa,
      s.flip_ge b a pb pa,
      t.flip_ge a b pa pb,
    );
    trans = first_nonzero-trans c d s t;
  }

pub IsThreeWay-IsComparator :
    {F : Type 0} (P : ClimberScore F → Type 0) (cmp : ClimberScore F → ClimberScore F → ℤ)
    → IsThreeWay P cmp
    → IsComparator P cmp
IsThreeWay-IsComparator P cmp t = record {
  order = record {
    asym = λ a b pa pb h. ground (arith, t.flip_le a b pa pb);
    trans = λ a b c pa pb pc h g. ground (
      arith,
      t.trans a b c pa pb pc,
      t.flip_ge b a pb pa,
      t.flip_ge c b pc pb,
      t.flip_le a c pa pc,
    );
  };
  tie = λ a b pa pb h. ground (arith, t.flip_le a b pa pb);
  untie = λ a b pa pb h g. ground (arith, t.flip_ge b a pb pa);
}

pub pull-IsThreeWay {ℓ κ μ} :
    {A : Type ℓ} {B : Type κ} {P : A → Type μ} {Q : B → Type μ} (f : A → B) (cmp : B → B → ℤ)
    → ((a : A) → P a → Q (f a))
    → IsThreeWay Q cmp
    → IsThreeWay P (λ a b. cmp (f a) (f b))
pull-IsThreeWay f cmp k t = record {
  flip_le = λ a b pa pb. t.flip_le (f a) (f b) (k a pa) (k b pb);
  flip_ge = λ a b pa pb. t.flip_ge (f a) (f b) (k a pa) (k b pb);
  trans = λ a b c pa pb pc. t.trans (f a) (f b) (f c) (k a pa) (k b pb) (k c pc);
}
