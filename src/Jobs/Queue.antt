-- ===== src/Jobs/Queue.antt =====
-- The jobs table and the operations of Queue (internal/jobs/queue.go). Times are nanoseconds, and
-- the SQL of an operation is its meaning on the table; a statement that fails changes nothing.
use routewerk.Prelude.{
  ℕ, zero, suc, ◌+◌, ◌^◌, String, str_eq, Bool, true, false, not, ◌&&◌, ◌||◌, List, [], ◌∷◌, Option,
  none, some, ltb, leb, ◌==◌, if◌then◌else◌,
}
use routewerk.Prelude.Int.{ℤ, pos, pos_part, ◌+ℤ◌, ltb_ℤ, mul64}

pub data Status : Type 0 where
  pending running completed dead : Status

pub record Job : Type 0 where
  pub id : ℕ
  pub queue : String
  pub job_type : String
  pub payload : String
  pub status : Status
  pub attempts : ℕ
  pub max_attempts : ℕ
  pub last_error : Option String
  pub run_at : ℤ
  pub started_at : Option ℤ
  pub completed_at : Option ℤ
  pub created_at : ℤ

-- The rows, newest first, and the sequence of their ids.
pub record Table : Type 0 where
  pub jobs : List Job
  pub next_id : ℕ

-- A nil payload and a zero time are `none`.
pub record EnqueueParams : Type 0 where
  pub queue : String
  pub job_type : String
  pub payload : Option String
  pub max_attempts : ℤ
  pub run_at : Option ℤ

abbrev pub or_else {ℓ} : {A : Type ℓ} → A → Option A → A
or_else fallback none = fallback
or_else fallback (some a) = a

-- The row of a new job, the defaults filled in.
abbrev pub new_job : ℤ → EnqueueParams → ℕ → Job
new_job now p id = record {
  id = id;
  queue = if str_eq p.queue "" then "default" else p.queue;
  job_type = p.job_type;
  payload = or_else "{}" p.payload;
  status = pending;
  attempts = 0;
  max_attempts = if ltb_ℤ (pos 0) p.max_attempts then pos_part p.max_attempts else 3;
  last_error = none;
  run_at = or_else now p.run_at;
  started_at = none;
  completed_at = none;
  created_at = now;
}

-- Enqueue: the new id, or `none` for an error; max_attempts is an int4 column.
unfoldable pub enqueue : Bool → ℤ → EnqueueParams → Table → Table × Option ℕ
enqueue insert_fails now p t =
    if str_eq p.job_type ""
    then (t, none)
    else if insert_fails || ltb 2_147_483_647 (new_job now p t.next_id).max_attempts
    then (t, none)
    else (
      record { jobs = new_job now p t.next_id ∷ t.jobs; next_id = t.next_id + 1 },
      some t.next_id,
    )

abbrev pub is_pending : Status → Bool
is_pending pending = true
is_pending _ = false

abbrev pub is_running : Status → Bool
is_running running = true
is_running _ = false

-- `status = 'pending' AND run_at <= NOW()`, of the rows that no other worker has locked.
abbrev pub is_due : ℤ → (ℕ → Bool) → Job → Bool
is_due now locked j = is_pending j.status && not (ltb_ℤ now j.run_at) && not (locked j.id)

-- `ORDER BY run_at ASC LIMIT 1`; of the jobs that tie, the oldest row.
unfoldable pub earliest : (Job → Bool) → List Job → Option Job
earliest p [] = none
earliest p (j ∷ rest) =
    let found = earliest p rest in
    if p j
    then elim found [ none ↦ some j | some k ↦ if ltb_ℤ j.run_at k.run_at then some j else some k ]
    else found

-- `UPDATE jobs … WHERE id = …`
unfoldable pub update : ℕ → (Job → Job) → List Job → List Job
update id f [] = []
update id f (j ∷ rest) = (if j.id == id then f j else j) ∷ update id f rest

-- What a claim comes to; a claimed job is the worker's copy of the row.
pub data Claim : Type 0 where
  claimed : Job → Claim
  drained broken : Claim

abbrev pub mark_running : ℤ → Job → Job
mark_running now j = record j { status = running; started_at = some now; attempts = j.attempts + 1 }

-- The transaction of processOne; `fails` says that one of its statements fails.
unfoldable pub claim : Bool → ℤ → (ℕ → Bool) → Table → Table × Claim
unfolding earliest update
claim fails now locked t =
    if fails then (t, broken) else elim (earliest (is_due now locked) t.jobs) [
      | none ↦ (t, drained)
      | some j ↦ (
        record t { jobs = update j.id (mark_running now) t.jobs },
        claimed (record j { status = running; attempts = j.attempts + 1 }),
      )
    ]

unfoldable pub complete_job : Bool → ℤ → Job → Table → Table
unfolding update
complete_job fails now job t = if fails then t else record t {
  jobs = update job.id (λ j. record j { status = completed; completed_at = some now }) t.jobs;
}

-- 1*time.Hour
abbrev pub hour : ℤ
hour = pos 3_600_000_000_000

module _ (convert : ℕ → ℤ) where
  -- `time.Duration(math.Pow(4, attempts)) * 30 * time.Second`, at most an hour; `convert` is the
  -- conversion of a whole float64 to int64.
  unfoldable pub backoff_delay : ℕ → ℤ
  backoff_delay attempts =
      let delay = mul64 (convert (4 ^ attempts)) (pos 30_000_000_000) in
      if ltb_ℤ hour delay then hour else delay

  unfoldable pub fail_job : Bool → ℤ → Job → String → Table → Table
  unfolding update backoff_delay ◌+ℤ◌
  fail_job fails now job message t =
      if fails
      then t
      else if leb job.max_attempts job.attempts
      then record t {
        jobs =
            update job.id
              (λ j. record j { status = dead; last_error = some message; completed_at = some now })
              t.jobs;
      }
      else record t {
        jobs =
            update job.id
              (λ j. record j {
                status = pending;
                last_error = some message;
                run_at = now +ℤ backoff_delay job.attempts;
              })
              t.jobs;
      }

-- How the handler of a job ends, with the message that is recorded: there is none, it returns, it
-- returns an error, or it panics.
pub data Ending : Type 0 where
  returned : Ending
  unhandled returned_error panicked : String → Ending

-- What surrounds one call of processOne: the statements that fail, the rows that others have
-- locked, the times of the claim and of the end, and how the handler ends.
pub record Round : Type 0 where
  pub claim_fails : Bool
  pub finish_fails : Bool
  pub locked : ℕ → Bool
  pub now : ℤ
  pub later : ℤ
  pub ending : Job → Ending

module _ (convert : ℕ → ℤ) where
  -- What follows the handler's end.
  unfoldable pub finish : Bool → ℤ → Job → Ending → Table → Table
  unfolding fail_job complete_job
  finish fails now job (unhandled message) t = fail_job convert fails now job message t
  finish fails now job returned t = complete_job fails now job t
  finish fails now job (returned_error message) t = fail_job convert fails now job message t
  finish fails now job (panicked message) t = fail_job convert fails now job message t

  -- processOne: whether a job was processed, or `none` for an error.
  unfoldable pub process_one : Round → Table → Table × Option Bool
  unfolding claim finish
  process_one r t =
      let (t', c) = claim r.claim_fails r.now r.locked t in
      elim c [
        | broken ↦ (t', none)
        | drained ↦ (t', some false)
        | claimed job ↦ (finish r.finish_fails r.later job (r.ending job) t', some true)
      ]

  -- The loop of pollLoop within one tick, on fuel: `none` is out of fuel, otherwise the table at the end
  -- and the number of jobs processed. `i` rounds have been, and `rounds` has what surrounds each.
  unfoldable pub drain : ℕ → ℕ → (ℕ → Round) → Table → Option (Table × ℕ)
  drain zero i rounds t = none
  drain (suc fuel) i rounds t =
      let (t', processed) = process_one (rounds i) t in
      elim processed [
        | none ↦ some (t', i)
        | some false ↦ some (t', i)
        | some true ↦ drain fuel (i + 1) rounds t'
      ]

-- The reaper's UPDATE, `cutoff` being the time before which a running job is stale.
abbrev is_stale : ℤ → Job → Bool
is_stale cutoff j =
    is_running j.status && elim j.started_at [ none ↦ false | some at ↦ ltb_ℤ at cutoff ]

unfoldable pub reap_jobs : ℤ → List Job → List Job
reap_jobs cutoff [] = []
reap_jobs cutoff (j ∷ rest) =
    (if is_stale cutoff j
      then record j { status = pending; last_error = some "stale: exceeded timeout" }
      else j)
    ∷ reap_jobs cutoff rest

-- One tick of reapLoop.
unfoldable pub reap : Bool → ℤ → Table → Table
unfolding reap_jobs
reap fails cutoff t = if fails then t else record t { jobs = reap_jobs cutoff t.jobs }
