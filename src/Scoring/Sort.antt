-- ===== src/Scoring/Sort.antt =====
-- sort.SliceStable, the standard library's stable sort, as the scorers use it: a stable sort by
-- insertion, with the facts that Go documents for it.
use mathlib.Core.List.{Perm}
use mathlib.Core.List.Perm
use routewerk.Prelude.{
  ◌≡◌, refl, inl, inr, Bool, true, false, not, ◌||◌, List, [], ◌∷◌, arith, keep, count, All,
  Bool-cases, if◌then◌else◌,
}

-- What a comparator `less` must satisfy on the values of `P`: a strict weak order.
pub record IsWeakOrder {ℓ κ} {A : Type ℓ} (P : A → Type κ) (less : A → A → Bool)
    : Type (ℓ ⊔ κ) where
  pub asym : (a b : A) → P a → P b → less a b ≡ true → less b a ≡ false
  pub trans : (a b c : A) → P a → P b → P c → less b a ≡ false → less c b ≡ false → less c a ≡ false

module _ {ℓ} {A : Type ℓ} (less : A → A → Bool) where
  unfoldable pub insert_stable : A → List A → List A
  insert_stable x [] = x ∷ []
  insert_stable x (y ∷ ys) =
      let rest = insert_stable x ys in if less y x then y ∷ rest else x ∷ y ∷ ys

  unfoldable pub slice_stable : List A → List A
  unfolding insert_stable
  slice_stable [] = []
  slice_stable (x ∷ xs) = insert_stable x (slice_stable xs)

  insert_stable-perm : (x : A) (ys : List A) → Perm (insert_stable x ys) (x ∷ ys)
  unfolding insert_stable
  insert_stable-perm x [] = Perm.refl (x ∷ [])
  insert_stable-perm x (y ∷ ys) = elim (Bool-cases (less y x)) [
    | inl e ↦ rw e (Perm.trans (Perm.cons y (insert_stable-perm x ys)) (Perm.swap x y ys))
    | inr e ↦ rw e (Perm.refl (x ∷ y ∷ ys))
  ]

  pub slice_stable-perm : (xs : List A) → Perm (slice_stable xs) xs
  unfolding slice_stable
  slice_stable-perm [] = Perm.refl []
  slice_stable-perm (x ∷ xs) =
      Perm.trans (insert_stable-perm x (slice_stable xs)) (Perm.cons x (slice_stable-perm xs))

  insert_stable-All {κ} :
      (P : A → Type κ) (x : A) (ys : List A) → P x → All P ys → All P (insert_stable x ys)
  unfolding insert_stable
  insert_stable-All P x [] px h = (px, tt)
  insert_stable-All P x (y ∷ ys) px h = elim (Bool-cases (less y x)) [
    | inl e ↦ rw e (h.0, insert_stable-All P x ys px h.1)
    | inr e ↦ rw e (px, h)
  ]

  pub slice_stable-All {κ} : (P : A → Type κ) (xs : List A) → All P xs → All P (slice_stable xs)
  unfolding slice_stable
  slice_stable-All P [] h = tt
  slice_stable-All P (x ∷ xs) h =
      insert_stable-All P x (slice_stable xs) h.0 (slice_stable-All P xs h.1)

  count-insert_stable :
      (p : A → Bool) (x : A) (ys : List A) → count p (insert_stable x ys) ≡ count p (x ∷ ys)
  unfolding insert_stable count
  count-insert_stable p x [] = refl
  count-insert_stable p x (y ∷ ys) = ground (arith, count-insert_stable p x ys)

  -- Sorting keeps how many members pass a test.
  pub count-slice_stable : (p : A → Bool) (xs : List A) → count p (slice_stable xs) ≡ count p xs
  unfolding slice_stable count
  count-slice_stable p [] = refl
  count-slice_stable p (x ∷ xs) =
      ground (arith, count-insert_stable p x (slice_stable xs), count-slice_stable p xs)

  -- No member is less than one that stands before it.
  abbrev pub IsSorted : List A → Type ℓ
  IsSorted [] = Unit
  IsSorted (x ∷ xs) = All (λ y. less y x ≡ false) xs × IsSorted xs

module _ {ℓ κ} {A : Type ℓ} (P : A → Type κ) (less : A → A → Bool) (w : IsWeakOrder P less) where
  not_less_trans :
      (x y : A) (ys : List A)
      → P x
      → P y
      → All P ys
      → less y x ≡ false
      → All (λ z. less z y ≡ false) ys
      → All (λ z. less z x ≡ false) ys
  not_less_trans x y [] px py h e k = tt
  not_less_trans x y (z ∷ ys) px py h e k =
      (w.trans x y z px py h.0 e k.0, not_less_trans x y ys px py h.1 e k.1)

  insert_stable-IsSorted :
      (x : A) (ys : List A)
      → P x
      → All P ys
      → IsSorted less ys
      → IsSorted less (insert_stable less x ys)
  unfolding insert_stable
  insert_stable-IsSorted x [] px h s = (tt, tt)
  insert_stable-IsSorted x (y ∷ ys) px h s = elim (Bool-cases (less y x)) [
    | inl e ↦ rw e (
      insert_stable-All less (λ z. less z y ≡ false) x ys (w.asym y x h.0 px e) s.0,
      insert_stable-IsSorted x ys px h.1 s.1,
    )
    | inr e ↦ rw e ((e, not_less_trans x y ys px h.0 h.1 e s.0), s)
  ]

  pub slice_stable-IsSorted : (xs : List A) → All P xs → IsSorted less (slice_stable less xs)
  unfolding slice_stable
  slice_stable-IsSorted [] h = tt
  slice_stable-IsSorted (x ∷ xs) h =
      insert_stable-IsSorted x (slice_stable less xs) h.0 (slice_stable-All less P xs h.1)
        (slice_stable-IsSorted xs h.1)

  abbrev tied : A → A → Bool
  tied a b = not (less a b || less b a)

  keep-insert_stable :
      (a x : A) (ys : List A)
      → P a
      → P x
      → All P ys
      → keep (tied a) (insert_stable less x ys) ≡ keep (tied a) (x ∷ ys)
  unfolding insert_stable keep
  keep-insert_stable a x [] pa px h = refl
  keep-insert_stable a x (y ∷ ys) pa px h = ground (
    arith,
    keep-insert_stable a x ys pa px h.1,
    w.asym y x h.0 px,
    w.trans a x y pa px h.0,
    w.trans x a y px pa h.0,
    w.trans y a x h.0 pa px,
    w.trans x y a px h.0 pa,
    w.trans y x a h.0 px pa,
    w.trans a y x pa h.0 px,
  )

  -- Members that tie keep their order.
  pub keep-slice_stable :
      (a : A) (xs : List A)
      → P a
      → All P xs
      → keep (tied a) (slice_stable less xs) ≡ keep (tied a) xs
  unfolding slice_stable keep
  keep-slice_stable a [] pa h = refl
  keep-slice_stable a (x ∷ xs) pa h = ground (
    arith,
    keep-insert_stable a x (slice_stable less xs) pa h.0 (slice_stable-All less P xs h.1),
    keep-slice_stable a xs pa h.1,
  )
