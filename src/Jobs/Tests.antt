-- ===== src/Jobs/Tests.antt =====
-- The theorems on the job queue at a concrete table.
use routewerk.Prelude.{
  ℕ, ◌+◌, ◌*◌, ◌^◌, ◌≡◌, refl, ◌⊎◌, false, [], ◌∷◌, Option, none, some, arith, leb, if◌then◌else◌,
}
use routewerk.Prelude.Int.{ℤ, pos}
use routewerk.Jobs.Queue.{
  Table, EnqueueParams, enqueue, earliest, update, claim, returned_error, Round, process_one,
  reap_jobs, reap, backoff_delay, Status, pending,
}
use routewerk.Jobs.Claim.{IsDrained, IsClaimed, claim-cases}
use routewerk.Jobs.Backoff.{Converts, backoff_delay_lem}
use routewerk.Jobs.Drain.{work, IsStopped, drain-IsStopped}
use routewerk.Jobs.Budget.{IsTable, empty, enqueued, processed, Reached-IsTable}

-- The conversion of a float64 on the numbers that an int64 holds.
abbrev exact : ℕ → ℤ
exact n = pos n

exact-Converts : Converts exact
exact-Converts n h = refl

backoff_delay_lem_example :
    backoff_delay exact 3
    ≡ pos (
        if leb (4 ^ 3 * 30_000_000_000) 3_600_000_000_000
        then 4 ^ 3 * 30_000_000_000
        else 3_600_000_000_000)
backoff_delay_lem_example = backoff_delay_lem exact 3 exact-Converts (omega arith)

abbrev send_mail : EnqueueParams
send_mail = record {
  queue = "";
  job_type = "email.send";
  payload = none;
  max_attempts = pos 1;
  run_at = none;
}

-- No statement fails, and the handler returns an error.
abbrev failing_round : Round
failing_round = record {
  claim_fails = false;
  finish_fails = false;
  locked = λ id. false;
  now = pos 10;
  later = pos 12;
  ending = λ j. returned_error "smtp";
}

abbrev no_jobs : Table
no_jobs = record { jobs = []; next_id = 1 }

abbrev one_job : Table
one_job = (enqueue false (pos 5) send_mail no_jobs).0

Reached-IsTable_example : IsTable (process_one exact failing_round one_job).0
Reached-IsTable_example =
    Reached-IsTable exact (process_one exact failing_round one_job).0
      (processed failing_round one_job (enqueued false (pos 5) send_mail no_jobs empty))

claim-cases_example :
    IsDrained (pos 10) (λ id. false) one_job (claim false (pos 10) (λ id. false) one_job)
    ⊎ IsClaimed (pos 10) (λ id. false) one_job (claim false (pos 10) (λ id. false) one_job)
claim-cases_example = claim-cases (pos 10) (λ id. false) one_job

abbrev first_status : Table → Option (Status × ℕ × ℕ)
first_status t = elim t.jobs [ [] ↦ none | j ∷ rest ↦ some (j.status, j.attempts, j.max_attempts) ]

-- The worker dies in the only attempt, and the reaper makes the job pending once more, past its limit.
reap_past_limit :
    first_status (reap false (pos 600) (claim false (pos 10) (λ id. false) one_job).0)
    ≡ some (pending, 1, 1)
unfolding reap reap_jobs claim enqueue earliest update
reap_past_limit = refl

drain-IsStopped_example : IsStopped exact (λ i. failing_round) 0 (work one_job.jobs + 1) one_job
drain-IsStopped_example =
    drain-IsStopped exact (λ i. failing_round) one_job
      (enqueued false (pos 5) send_mail no_jobs empty)
