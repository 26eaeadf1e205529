-- ===== src/Jobs/Budget.antt =====
-- The attempts of a job against its limit (internal/jobs/queue.go).
use routewerk.Prelude.{
  ℕ, ◌+◌, ◌≤◌, ◌<◌, ◌≡◌, refl, ap, sym, inl, inr, String, str_eq, Bool, true, false, List, [], ◌∷◌,
  some, arith, All, All-imp, leb, ltb, ◌||◌, Bool-cases, Option-cases,
}
use mathlib.Core.Path.{subst}
use routewerk.Prelude.Int.{ℤ}
use routewerk.Jobs.Queue.{
  Job, Table, running, EnqueueParams, new_job, enqueue, is_pending, is_due, earliest, update,
  mark_running, claim, complete_job, fail_job, Ending, unhandled, returned, returned_error,
  panicked, finish, Round, process_one,
}
use routewerk.Jobs.Rows.{IsNumbered, earliest-All, earliest-only, All-update, IsNumbered-update}

-- A pending job has an attempt left, and no job has had more attempts than its limit.
abbrev pub IsWithinBudget : Job → Type 0
IsWithinBudget j =
    (j.attempts ≤ j.max_attempts) × (is_pending j.status ≡ true → j.attempts < j.max_attempts)

pub record IsTable (t : Table) : Type 0 where
  pub numbered : IsNumbered t.next_id t.jobs
  pub within : All IsWithinBudget t.jobs

-- The rows with the id of `job` have had its attempts and have its limit.
abbrev Agrees : Job → Job → Type 0
Agrees job r = r.id ≡ job.id → (r.attempts ≡ job.attempts) × (r.max_attempts ≡ job.max_attempts)

-- A table in which a worker holds a job.
record IsHeld (t : Table) (job : Job) : Type 0 where
  table : IsTable t
  agrees : All (Agrees job) t.jobs

All-and :
    (P Q : Job → Type 0) (jobs : List Job) → All P jobs → All Q jobs → All (λ j. P j × Q j) jobs
All-and P Q [] p q = tt
All-and P Q (j ∷ jobs) p q = ((p.0, q.0), All-and P Q jobs p.1 q.1)

All-fst : (P Q : Job → Type 0) (jobs : List Job) → All (λ j. P j × Q j) jobs → All P jobs
All-fst P Q jobs h = All-imp _ _ (λ j x. x.0) jobs h

claimed-IsHeld :
    (now : ℤ) (locked : ℕ → Bool) (t : Table) (j : Job)
    → IsTable t
    → earliest (is_due now locked) t.jobs ≡ some j
    → IsHeld
        (record t { jobs = update j.id (mark_running now) t.jobs })
        (record j { status = running; attempts = j.attempts + 1 })
claimed-IsHeld now locked t j h e =
    let job : Job = record j { status = running; attempts = j.attempts + 1 } in
    let only = earliest-only (is_due now locked) t.next_id t.jobs j h.numbered e in
    let due =
      (earliest-All (λ x. Unit {0}) (is_due now locked) t.jobs j
        (All-imp _ _ (λ r b. tt) t.jobs h.within) e).0 in
    let both : All (λ r. IsWithinBudget r × Agrees job r) (update j.id (mark_running now) t.jobs) =
      All-update (λ r. IsWithinBudget r × (r.id ≡ j.id → r ≡ j)) _ j.id (mark_running now) t.jobs
        (λ r i w.
          let q : r ≡ j = w.1 i in
          ground (
            arith,
            due,
            w.0,
            ap (λ (x : Job). x.status) q,
            ap (λ (x : Job). x.attempts) q,
            ap (λ (x : Job). x.max_attempts) q,
          ))
        (λ r i w. ground (arith, i, w.0)) (All-and _ _ t.jobs h.within only) in
    record {
      table = record {
        numbered =
            IsNumbered-update t.next_id j.id (mark_running now) t.jobs (λ r. refl) h.numbered;
        within = All-fst _ _ _ both;
      };
      agrees = All-imp _ _ (λ r x. x.1) _ both;
    }

complete_job-IsTable :
    (fails : Bool) (now : ℤ) (job : Job) (t : Table)
    → IsHeld t job
    → IsTable (complete_job fails now job t)
unfolding complete_job
complete_job-IsTable true now job t h = h.table
complete_job-IsTable false now job t h = record {
  numbered = IsNumbered-update t.next_id job.id _ t.jobs (λ r. refl) h.table.numbered;
  within =
      All-update IsWithinBudget _ job.id _ t.jobs (λ r i w. ground (arith, w)) (λ r i w. w)
        h.table.within;
}

module _ (convert : ℕ → ℤ) where
  fail_job-IsTable :
      (fails : Bool) (now : ℤ) (job : Job) (message : String) (t : Table)
      → IsHeld t job
      → IsTable (fail_job convert fails now job message t)
  unfolding fail_job
  fail_job-IsTable true now job message t h = h.table
  fail_job-IsTable false now job message t h =
      elim (Bool-cases (leb job.max_attempts job.attempts)) [
        | inl e ↦
            rw (e, fail_job)
              (record {
                numbered = IsNumbered-update t.next_id job.id _ t.jobs (λ r. refl) h.table.numbered;
                within =
                    All-update IsWithinBudget _ job.id _ t.jobs (λ r i w. ground (arith, w))
                      (λ r i w. w) h.table.within;
              })
        | inr e ↦
            rw (e, fail_job)
              (record {
                numbered = IsNumbered-update t.next_id job.id _ t.jobs (λ r. refl) h.table.numbered;
                within =
                    All-update (λ r. IsWithinBudget r × Agrees job r) _ job.id _ t.jobs
                      (λ r i w. ground (arith, w.0, w.1 i, e)) (λ r i w. w.0)
                      (All-and _ _ t.jobs h.table.within h.agrees);
              })
      ]

  finish-IsTable :
      (fails : Bool) (now : ℤ) (job : Job) (ending : Ending) (t : Table)
      → IsHeld t job
      → IsTable (finish convert fails now job ending t)
  unfolding finish
  finish-IsTable fails now job (unhandled message) t h = fail_job-IsTable fails now job message t h
  finish-IsTable fails now job returned t h = complete_job-IsTable fails now job t h
  finish-IsTable fails now job (returned_error message) t h =
      fail_job-IsTable fails now job message t h
  finish-IsTable fails now job (panicked message) t h = fail_job-IsTable fails now job message t h

  -- processOne keeps the budget of every job, however the handler ends and whatever statement fails.
  pub process_one-IsTable :
      (r : Round) (t : Table) → IsTable t → IsTable (process_one convert r t).0
  unfolding process_one claim
  process_one-IsTable r t h = elim (Bool-cases r.claim_fails) [
    | inl f ↦
        let came : (process_one convert r t).0 ≡ t = ground (arith, f) in subst IsTable (sym came) h
    | inr f ↦ elim (Option-cases (earliest (is_due r.now r.locked) t.jobs)) [
      | inl e ↦
          let came : (process_one convert r t).0 ≡ t = ground (arith, f, e) in
          subst IsTable (sym came) h
      | inr (j, e) ↦
          let job : Job = record j { status = running; attempts = j.attempts + 1 } in
          let t' : Table = record t { jobs = update j.id (mark_running r.now) t.jobs } in
          let came : (process_one convert r t).0
              ≡ finish convert r.finish_fails r.later job (r.ending job) t' =
            ground (arith, f, e) in
          subst IsTable (sym came) (
            finish-IsTable r.finish_fails r.later job (r.ending job) t'
              (claimed-IsHeld r.now r.locked t j h e))
    ]
  ]

enqueue-IsTable :
    (fails : Bool) (now : ℤ) (p : EnqueueParams) (t : Table)
    → IsTable t
    → IsTable (enqueue fails now p t).0
unfolding enqueue
enqueue-IsTable fails now p t h = elim (Bool-cases (str_eq p.job_type "")) [
  | inl e ↦ rw (e, enqueue) h
  | inr e ↦ elim (Bool-cases (fails || ltb 2_147_483_647 (new_job now p t.next_id).max_attempts)) [
    | inl f ↦
        let came : (enqueue fails now p t).0 ≡ t = ground (arith, e, f) in
        subst IsTable (sym came) h
    | inr f ↦
        let came : (enqueue fails now p t).0
            ≡ record { jobs = new_job now p t.next_id ∷ t.jobs; next_id = t.next_id + 1 } =
          ground (arith, e, f) in
        subst IsTable (sym came)
          (record { numbered = (omega arith, h.numbered); within = (ground arith, h.within) })
  ]
]

-- The tables that a worker and its clients lead to, the reaper aside.
pub data Reached (convert : ℕ → ℤ) : Table → Type 0 where
  empty : Reached convert (record { jobs = []; next_id = 1 })
  enqueued :
      (fails : Bool) (now : ℤ) (p : EnqueueParams) (t : Table)
      → Reached convert t
      → Reached convert (enqueue fails now p t).0
  processed :
      (r : Round) (t : Table) → Reached convert t → Reached convert (process_one convert r t).0

-- In every table that Enqueue and processOne lead to, whatever statements fail and however handlers
-- end, no job has had more attempts than its limit, a pending job has an attempt left, and the ids
-- are distinct.
pub Reached-IsTable : (convert : ℕ → ℤ) (t : Table) → Reached convert t → IsTable t
Reached-IsTable convert _ empty = record { numbered = tt; within = tt }
Reached-IsTable convert _ (enqueued fails now p t h) =
    enqueue-IsTable fails now p t (Reached-IsTable convert t h)
Reached-IsTable convert _ (processed r t h) =
    process_one-IsTable convert r t (Reached-IsTable convert t h)
