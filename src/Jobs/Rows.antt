-- ===== src/Jobs/Rows.antt =====
-- The rows that the statements of internal/jobs/queue.go select and update.
use routewerk.Prelude.{
  ℕ, ◌≤◌, ◌<◌, ◌≡◌, ap, ◌⊎◌, inl, inr, Bool, true, false, List, [], ◌∷◌, none, some, arith, All,
  All-imp, ◌==◌, Bool-cases, Option-cases,
}
use mathlib.Core.Path.{subst}
use routewerk.Prelude.Int.{ltb_ℤ, ◌≤ℤ◌}
use routewerk.Jobs.Queue.{Job, earliest, update}

-- The ids of the rows go down, and lie below `n`.
abbrev pub IsNumbered : ℕ → List Job → Type 0
IsNumbered n [] = Unit
IsNumbered n (j ∷ rest) = (j.id < n) × IsNumbered j.id rest

below-IsNumbered :
    (n m : ℕ) (jobs : List Job) → n ≤ m → IsNumbered n jobs → All (λ (j : Job). j.id < m) jobs
below-IsNumbered n m [] l h = tt
below-IsNumbered n m (j ∷ jobs) l h =
    (omega (arith, h.0), below-IsNumbered j.id m jobs (omega (arith, h.0)) h.1)

-- The job that `earliest` finds passes the test and has every property that all rows have.
pub earliest-All :
    (P : Job → Type 0) (p : Job → Bool) (jobs : List Job) (j : Job)
    → All P jobs
    → earliest p jobs ≡ some j
    → (p j ≡ true) × P j
unfolding earliest
earliest-All P p [] j h e = absurd (ground (arith, e))
earliest-All P p (k ∷ jobs) j h e = elim (Bool-cases (p k)) [
  | inr n ↦ earliest-All P p jobs j h.1 (ground (arith, e, n))
  | inl n ↦ elim (Option-cases (earliest p jobs)) [
    | inl m ↦
        let q : k ≡ j = ground (arith, e, n, m) in
        subst (λ (x : Job). (p x ≡ true) × P x) q (n, h.0)
    | inr (x, m) ↦ elim (Bool-cases (ltb_ℤ k.run_at x.run_at)) [
      | inl l ↦
          let q : k ≡ j = ground (arith, e, n, m, l) in
          subst (λ (x : Job). (p x ≡ true) × P x) q (n, h.0)
      | inr l ↦ earliest-All P p jobs j h.1 (ground (arith, e, n, m, l))
    ]
  ]
]

-- The job that `earliest` finds is the first row, or is found among the others.
pub earliest_tail :
    (p : Job → Bool) (k : Job) (jobs : List Job) (j : Job)
    → earliest p (k ∷ jobs) ≡ some j
    → (k ≡ j) ⊎ (earliest p jobs ≡ some j)
unfolding earliest
earliest_tail p k jobs j e = elim (Bool-cases (p k)) [
  | inr n ↦ inr (ground (arith, e, n))
  | inl n ↦ elim (Option-cases (earliest p jobs)) [
    | inl m ↦ inl (ground (arith, e, n, m))
    | inr (x, m) ↦ elim (Bool-cases (ltb_ℤ k.run_at x.run_at)) [
      | inl l ↦ inl (ground (arith, e, n, m, l))
      | inr l ↦ inr (ground (arith, e, n, m, l))
    ]
  ]
]

-- In a numbered table, the job that `earliest` finds is the only row with its id.
pub earliest-only :
    (p : Job → Bool) (n : ℕ) (jobs : List Job) (j : Job)
    → IsNumbered n jobs
    → earliest p jobs ≡ some j
    → All (λ (r : Job). r.id ≡ j.id → r ≡ j) jobs
unfolding earliest
earliest-only p n [] j h e = tt
earliest-only p n (k ∷ jobs) j h e = elim (earliest_tail p k jobs j e) [
  | inl q ↦ (
    λ i. q,
    All-imp _ _ (λ r b i. absurd (omega (arith, b, i, ap (λ (x : Job). x.id) q))) jobs
        (below-IsNumbered k.id k.id jobs (omega arith) h.1),
  )
  | inr m ↦
      let b =
        (earliest-All (λ x. x.id < k.id) p jobs j
          (below-IsNumbered k.id k.id jobs (omega arith) h.1) m).1 in
      (λ i. absurd (omega (arith, b, i)), earliest-only p k.id jobs j h.1 m)
]

pub All-update :
    (P Q : Job → Type 0) (id : ℕ) (f : Job → Job) (jobs : List Job)
    → ((r : Job) → r.id ≡ id → P r → Q (f r))
    → ((r : Job) → (r.id == id) ≡ false → P r → Q r)
    → All P jobs
    → All Q (update id f jobs)
unfolding update
All-update P Q id f [] h k a = tt
All-update P Q id f (j ∷ jobs) h k a = elim (Bool-cases (j.id == id)) [
  | inl e ↦ rw (e, update) (h j (ground (arith, e)) a.0, All-update P Q id f jobs h k a.1)
  | inr e ↦ rw (e, update) (k j e a.0, All-update P Q id f jobs h k a.1)
]

pub IsNumbered-update :
    (n id : ℕ) (f : Job → Job) (jobs : List Job)
    → ((r : Job) → (f r).id ≡ r.id)
    → IsNumbered n jobs
    → IsNumbered n (update id f jobs)
unfolding update
IsNumbered-update n id f [] h k = tt
IsNumbered-update n id f (j ∷ jobs) h k = elim (Bool-cases (j.id == id)) [
  | inl e ↦
      rw (e, update) (omega (arith, k.0, h j), rw (h j) (IsNumbered-update j.id id f jobs h k.1))
  | inr e ↦ rw (e, update) (k.0, IsNumbered-update j.id id f jobs h k.1)
]

pub earliest-none :
    (p : Job → Bool) (jobs : List Job)
    → earliest p jobs ≡ none
    → All (λ (r : Job). p r ≡ false) jobs
unfolding earliest
earliest-none p [] e = tt
earliest-none p (k ∷ jobs) e = elim (Bool-cases (p k)) [
  | inr n ↦ (n, earliest-none p jobs (ground (arith, e, n)))
  | inl n ↦ elim (Option-cases (earliest p jobs)) [
    | inl m ↦ absurd (ground (arith, e, n, m))
    | inr (x, m) ↦ elim (Bool-cases (ltb_ℤ k.run_at x.run_at)) [
      | inl l ↦ absurd (ground (arith, e, n, m, l))
      | inr l ↦ absurd (ground (arith, e, n, m, l))
    ]
  ]
]

-- Nothing that passes the test runs earlier.
abbrev pub IsLeast : (Job → Bool) → Job → List Job → Type 0
IsLeast p j jobs = All (λ (r : Job). p r ≡ true → j.run_at ≤ℤ r.run_at) jobs

pub earliest-IsLeast :
    (p : Job → Bool) (jobs : List Job) (j : Job) → earliest p jobs ≡ some j → IsLeast p j jobs
unfolding earliest
earliest-IsLeast p [] j e = tt
earliest-IsLeast p (k ∷ jobs) j e = elim (Bool-cases (p k)) [
  | inr n ↦ (λ h. absurd (ground (arith, h, n)), earliest-IsLeast p jobs j (ground (arith, e, n)))
  | inl n ↦ elim (Option-cases (earliest p jobs)) [
    | inl m ↦
        let q : k ≡ j = ground (arith, e, n, m) in
        subst (λ x. IsLeast p x (k ∷ jobs)) q
          (
            λ h. omega arith,
            All-imp _ _ (λ r f h. absurd (ground (arith, h, f))) jobs (earliest-none p jobs m),
          )
    | inr (x, m) ↦ elim (Bool-cases (ltb_ℤ k.run_at x.run_at)) [
      | inl l ↦
          let q : k ≡ j = ground (arith, e, n, m, l) in
          subst (λ y. IsLeast p y (k ∷ jobs)) q
            (
              λ h. omega arith,
              All-imp _ _ (λ r f h. ground (arith, f h, l)) jobs (earliest-IsLeast p jobs x m),
            )
      | inr l ↦
          let q : x ≡ j = ground (arith, e, n, m, l) in
          subst (λ y. IsLeast p y (k ∷ jobs)) q
            (λ h. ground (arith, l), earliest-IsLeast p jobs x m)
    ]
  ]
]
