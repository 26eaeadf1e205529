-- ===== src/Jobs/Drain.antt =====
-- The loop of pollLoop within one tick (internal/jobs/queue.go) comes to an end.
use routewerk.Prelude.{
  ℕ, zero, suc, ◌+◌, ◌-◌, ◌≤◌, ◌<◌, ◌≡◌, refl, sym, ap, ◌⊎◌, inl, inr, String, Bool, true, false,
  List, [], ◌∷◌, Option, none, some, arith, All, leb, ◌==◌, Bool-cases, Option-cases, if◌then◌else◌,
}
use mathlib.Core.Path.{subst}
use routewerk.Prelude.Int.{ℤ}
use routewerk.Jobs.Queue.{
  Job, Table, running, is_pending, is_due, earliest, update, mark_running, claim, complete_job,
  fail_job, Ending, unhandled, returned, returned_error, panicked, finish, Round, process_one,
  drain,
}
use routewerk.Jobs.Rows.{earliest-All, earliest-none, earliest-only, earliest_tail}
use routewerk.Jobs.Budget.{IsTable, process_one-IsTable, IsWithinBudget, Reached, Reached-IsTable}

-- The attempts that a pending job has left, and those of all rows.
abbrev pub left : Job → ℕ
left j = if is_pending j.status then j.max_attempts - j.attempts else 0

unfoldable pub work : List Job → ℕ
work [] = 0
work (j ∷ jobs) = left j + work jobs

update-update :
    (id : ℕ) (f g : Job → Job) (jobs : List Job)
    → ((r : Job) → (g r).id ≡ r.id)
    → update id f (update id g jobs) ≡ update id (λ r. f (g r)) jobs
unfolding update
update-update id f g [] k = refl
update-update id f g (j ∷ jobs) k =
    let rest = update-update id f g jobs k in
    elim (Bool-cases (j.id == id)) [
      | inl e ↦ ground (arith, e, rest, k j)
      | inr e ↦ ground (arith, e, rest)
    ]

module _ (j : Job) (h : Job → Job) (less : left (h j) < left j) where
  work-update_le :
      (jobs : List Job)
      → All (λ (r : Job). r.id ≡ j.id → r ≡ j) jobs
      → work (update j.id h jobs) ≤ work jobs
  unfolding work update
  work-update_le [] only = omega arith
  work-update_le (k ∷ jobs) only =
      let rest = work-update_le jobs only.1 in
      elim (Bool-cases (k.id == j.id)) [
        | inl e ↦
            let q : k ≡ j = only.0 (ground (arith, e)) in
            let smaller = subst (λ x. left (h x) < left x) (sym q) less in
            rw (e, update, work) (omega (arith, rest, smaller))
        | inr e ↦ rw (e, update, work) (omega (arith, rest))
      ]

  -- The one row that is found has less left.
  work-update_lt :
      (p : Job → Bool) (jobs : List Job)
      → earliest p jobs ≡ some j
      → All (λ (r : Job). r.id ≡ j.id → r ≡ j) jobs
      → work (update j.id h jobs) < work jobs
  unfolding work update earliest
  work-update_lt p [] found only = absurd (ground (arith, found))
  work-update_lt p (k ∷ jobs) found only = elim (Bool-cases (k.id == j.id)) [
    | inl e ↦
        let rest = work-update_le jobs only.1 in
        let q : k ≡ j = only.0 (ground (arith, e)) in
        let smaller = subst (λ x. left (h x) < left x) (sym q) less in
        rw (e, update, work) (omega (arith, rest, smaller))
    | inr e ↦ elim (earliest_tail p k jobs j found) [
      | inl q ↦ absurd (ground (arith, e, ap (λ (x : Job). x.id) q))
      | inr found' ↦
          let rest = work-update_lt p jobs found' only.1 in
          rw (e, update, work) (omega (arith, rest))
    ]
  ]

module _ (convert : ℕ → ℤ) (now : ℤ) (t : Table) (j : Job) where
  -- The job that the worker holds, and the table in which it does.
  abbrev held : Job
  held = record j { status = running; attempts = j.attempts + 1 }

  abbrev holding : Table
  holding = record t { jobs = update j.id (mark_running now) t.jobs }

  module _ (p : Job → Bool) (found : earliest p t.jobs ≡ some j)
      (only : All (λ (r : Job). r.id ≡ j.id → r ≡ j) t.jobs) (due : is_pending j.status ≡ true)
      (budget : j.attempts < j.max_attempts) where
    held-work : work holding.jobs < work t.jobs
    held-work =
        work-update_lt j (mark_running now) (ground (arith, due, budget)) p t.jobs found only

    ended-work :
        (f : Job → Job)
        → left (f (mark_running now j)) < left j
        → work (update j.id f holding.jobs) < work t.jobs
    ended-work f less =
        subst (λ jobs. work jobs < work t.jobs)
          (sym (update-update j.id f (mark_running now) t.jobs (λ r. refl)))
          (work-update_lt j (λ r. f (mark_running now r)) less p t.jobs found only)

    complete_job-work :
        (fails : Bool) (later : ℤ) → work (complete_job fails later held holding).jobs < work t.jobs
    unfolding complete_job
    complete_job-work true later = held-work
    complete_job-work false later = ended-work _ (ground (arith, due, budget))

    fail_job-work :
        (fails : Bool) (later : ℤ) (message : String)
        → work (fail_job convert fails later held message holding).jobs < work t.jobs
    unfolding fail_job
    fail_job-work true later message = held-work
    fail_job-work false later message = elim (Bool-cases (leb j.max_attempts (j.attempts + 1))) [
      | inl e ↦ rw (e, fail_job) (ended-work _ (ground (arith, due, budget)))
      | inr e ↦ rw (e, fail_job) (ended-work _ (ground (arith, due, budget)))
    ]

    finish-work :
        (fails : Bool) (later : ℤ) (ending : Ending)
        → work (finish convert fails later held ending holding).jobs < work t.jobs
    unfolding finish
    finish-work fails later (unhandled message) = fail_job-work fails later message
    finish-work fails later returned = complete_job-work fails later
    finish-work fails later (returned_error message) = fail_job-work fails later message
    finish-work fails later (panicked message) = fail_job-work fails later message

-- A round that ends the loop: its claim has failed, or no row is due.
abbrev pub HasEnded : Round → Table → Type 0
HasEnded r t = (r.claim_fails ≡ true) ⊎ All (λ (j : Job). is_due r.now r.locked j ≡ false) t.jobs

module _ (convert : ℕ → ℤ) where
  -- A round ends the loop, or takes an attempt from those that are left.
  process_one-work :
      (r : Round) (t : Table)
      → IsTable t
      → (HasEnded r t
          × ((process_one convert r t ≡ (t, none)) ⊎ (process_one convert r t ≡ (t, some false))))
        ⊎ (((process_one convert r t).1 ≡ some true)
            × (work (process_one convert r t).0.jobs < work t.jobs))
  unfolding process_one claim
  process_one-work r t h = elim (Bool-cases r.claim_fails) [
    | inl f ↦ inl (inl f, inl (ground (arith, f)))
    | inr f ↦ elim (Option-cases (earliest (is_due r.now r.locked) t.jobs)) [
      | inl e ↦ inl (inr (earliest-none _ t.jobs e), inr (ground (arith, f, e)))
      | inr (j, e) ↦
          let came : process_one convert r t ≡ (
            finish convert r.finish_fails r.later (held convert r.now t j)
                (r.ending (held convert r.now t j)) (holding convert r.now t j),
            some true,
          ) =
            ground (arith, f, e) in
          let (due, within) =
            earliest-All IsWithinBudget (is_due r.now r.locked) t.jobs j h.within e in
          let pending' : is_pending j.status ≡ true = ground (arith, due) in
          inr (
            ap (λ x. x.1) came,
            subst (λ (x : Table × Option Bool). work x.0.jobs < work t.jobs) (sym came)
                (finish-work convert r.now t j (is_due r.now r.locked) e
                  (earliest-only (is_due r.now r.locked) t.next_id t.jobs j h.numbered e) pending'
                  (within.1 pending') r.finish_fails r.later _),
          )
    ]
  ]

  -- How the loop ends: after some rounds, within the fuel, at a round that ends it.
  pub record IsStopped (rounds : ℕ → Round) (i fuel : ℕ) (t : Table) : Type 0 where
    pub table : Table
    pub last : ℕ
    pub result : drain convert fuel i rounds t ≡ some (table, last)
    pub few : last ≤ i + work t.jobs
    pub sound : IsTable table
    pub ended : HasEnded (rounds last) table

  drain_from :
      (rounds : ℕ → Round) (fuel i : ℕ) (t : Table)
      → IsTable t
      → work t.jobs < fuel
      → IsStopped rounds i fuel t
  unfolding drain
  drain_from rounds zero i t h l = absurd (omega (arith, l))
  drain_from rounds (suc fuel) i t h l = elim (process_one-work (rounds i) t h) [
    | inl (ended, inl e) ↦ record {
      table = t;
      last = i;
      result = ground (arith, e);
      few = omega arith;
      sound = h;
      ended = ended;
    }
    | inl (ended, inr e) ↦ record {
      table = t;
      last = i;
      result = ground (arith, e);
      few = omega arith;
      sound = h;
      ended = ended;
    }
    | inr (e, less) ↦
        let t' = (process_one convert (rounds i) t).0 in
        let d =
          drain_from rounds fuel (i + 1) t' (process_one-IsTable convert (rounds i) t h)
            (omega (arith, less, l)) in
        record {
          table = d.table;
          last = d.last;
          result = ground (arith, e, d.result);
          few = omega (arith, d.few, less);
          sound = d.sound;
          ended = d.ended;
        }
  ]

-- In every table that Enqueue and processOne lead to, the loop of a tick comes to an end, whatever
-- statements fail, however handlers end and however early a failed job is due again: it processes no
-- more jobs than the pending ones have attempts left, and stops when a claim fails or no row is due.
pub drain-IsStopped :
    (convert : ℕ → ℤ) (rounds : ℕ → Round) (t : Table)
    → Reached convert t
    → IsStopped convert rounds 0 (work t.jobs + 1) t
drain-IsStopped convert rounds t h =
    drain_from convert rounds (work t.jobs + 1) 0 t (Reached-IsTable convert t h) (omega arith)
