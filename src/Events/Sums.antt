-- ===== src/Events/Sums.antt =====
-- Sums over the lists of the event bus (internal/event/memory.go).
use routewerk.Prelude.{
  ◌⊎◌, ℕ, zero, suc, ◌+◌, ◌≡◌, refl, ap, inl, inr, List, [], ◌∷◌, ◌++◌, some, arith, length,
  Option-cases,
}
use routewerk.Events.Bus.{pick}

unfoldable pub sum_by {ℓ} : {A : Type ℓ} → (A → ℕ) → List A → ℕ
sum_by f [] = 0
sum_by f (x ∷ xs) = f x + sum_by f xs

pub sum_by-append {ℓ} :
    {A : Type ℓ} (f : A → ℕ) (xs ys : List A) → sum_by f (xs ++ ys) ≡ sum_by f xs + sum_by f ys
unfolding sum_by
sum_by-append f [] ys = omega arith
sum_by-append f (x ∷ xs) ys = omega (arith, sum_by-append f xs ys)

-- What is picked and the others add up to the whole.
pub sum_by-pick {ℓ} :
    {A : Type ℓ} (f : A → ℕ) (k : ℕ) (xs : List A) (x : A) (rest : List A)
    → pick k xs ≡ some (x, rest)
    → sum_by f xs ≡ f x + sum_by f rest
unfolding sum_by pick
sum_by-pick f k [] x rest e = absurd (ground (arith, e))
sum_by-pick f zero (y ∷ ys) x rest e =
    let q : ◌≡◌ {A = _ × List _} (y, ys) (x, rest) = ground (arith, e) in
    ap (λ r. f r.0 + sum_by f r.1) q
sum_by-pick f (suc k) (y ∷ ys) x rest e = elim (Option-cases (pick k ys)) [
  | inl n ↦ absurd (ground (arith, e, n))
  | inr (r, n) ↦
      let q : ◌≡◌ {A = _ × List _} (r.0, y ∷ r.1) (x, rest) = ground (arith, e, n) in
      let later = sum_by-pick f k ys r.0 r.1 n in
      omega (arith, later, ap (λ z. f z.0 + sum_by f z.1) q)
]

length-sum_by {ℓ} : {A : Type ℓ} (xs : List A) → length xs ≡ sum_by (λ x. 1) xs
unfolding sum_by
length-sum_by [] = refl
length-sum_by (x ∷ xs) = omega (arith, length-sum_by xs)

pub length-pick {ℓ} :
    {A : Type ℓ} (k : ℕ) (xs : List A) (x : A) (rest : List A)
    → pick k xs ≡ some (x, rest)
    → length xs ≡ length rest + 1
length-pick k xs x rest e =
    omega (arith, length-sum_by xs, length-sum_by rest, sum_by-pick (λ y. 1) k xs x rest e)

pub sum_by-empty {ℓ} : {A : Type ℓ} (f : A → ℕ) (xs : List A) → length xs ≡ 0 → sum_by f xs ≡ 0
unfolding sum_by
sum_by-empty f [] e = refl
sum_by-empty f (x ∷ xs) e = absurd (omega (arith, e))

pub List-cases {ℓ} :
    {A : Type ℓ} (xs : List A) → (xs ≡ []) ⊎ ((x : A) × (rest : List A) × (xs ≡ x ∷ rest))
List-cases [] = inl refl
List-cases (x ∷ rest) = inr (x, rest, refl)
