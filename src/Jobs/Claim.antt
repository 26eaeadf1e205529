-- ===== src/Jobs/Claim.antt =====
-- Which job processOne (internal/jobs/queue.go) claims.
use routewerk.Prelude.{
  ℕ, ◌+◌, ◌≡◌, refl, sym, ◌⊎◌, inl, inr, Bool, true, false, List, [], ◌∷◌, All, arith, Option-cases,
}
use mathlib.Core.Path.{subst}
use routewerk.Prelude.Int.{ℤ}
use routewerk.Jobs.Queue.{
  Job, Table, running, is_due, earliest, update, Claim, claimed, drained, mark_running, claim,
}
use routewerk.Jobs.Rows.{earliest-All, earliest-none, earliest-IsLeast, IsLeast}

-- The claim of a row: it was due, no due row should have run earlier, and the worker holds its copy,
-- marked as running with one attempt more, as the row itself then is.
pub record IsClaimed (now : ℤ) (locked : ℕ → Bool) (t : Table) (result : Table × Claim)
    : Type 0 where
  pub row : Job
  pub due : is_due now locked row ≡ true
  pub least : IsLeast (is_due now locked) row t.jobs
  pub copy : Job
  pub claimed_copy : result.1 ≡ claimed copy
  pub same_job : copy.id ≡ row.id
  pub marked : copy.status ≡ running
  pub counted : copy.attempts ≡ row.attempts + 1
  pub rows : result.0.jobs ≡ update row.id (mark_running now) t.jobs

-- A claim that finds nothing: no row is due.
abbrev pub IsDrained : ℤ → (ℕ → Bool) → Table → Table × Claim → Type 0
IsDrained now locked t result =
    (result ≡ (t, drained)) × All (λ (r : Job). is_due now locked r ≡ false) t.jobs

-- The claim of a worker whose statements work takes an earliest due row, and finds the queue drained
-- only if no row is due.
pub claim-cases :
    (now : ℤ) (locked : ℕ → Bool) (t : Table)
    → IsDrained now locked t (claim false now locked t)
      ⊎ IsClaimed now locked t (claim false now locked t)
unfolding claim
claim-cases now locked t = elim (Option-cases (earliest (is_due now locked) t.jobs)) [
  | inl e ↦ inl (ground (arith, e), earliest-none (is_due now locked) t.jobs e)
  | inr (j, e) ↦
      let came : claim false now locked t ≡ (
        record t { jobs = update j.id (mark_running now) t.jobs },
        claimed (record j { status = running; attempts = j.attempts + 1 }),
      ) =
        ground (arith, e) in
      subst (λ r. IsDrained now locked t r ⊎ IsClaimed now locked t r) (sym came)
        (inr (record {
          row = j;
          due = (earliest-All (λ x. Unit {0}) (is_due now locked) t.jobs j (trivial t.jobs) e).0;
          least = earliest-IsLeast (is_due now locked) t.jobs j e;
          copy = _;
          claimed_copy = refl;
          same_job = refl;
          marked = refl;
          counted = refl;
          rows = refl;
        }))
]
  where
    trivial : (jobs : List Job) → All (λ (x : Job). Unit {0}) jobs
    trivial [] = tt
    trivial (j ∷ jobs) = (tt, trivial jobs)
