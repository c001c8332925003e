-- ===== src/Jobs/Delivery.antt =====
-- A job over all the deliveries that RQ makes of it, and the queue against the table.
use review_signal.Base.{
  ◌+◌, ◌<◌, refl, ◌≤◌, eq_refl, arith, ℕ, zero, suc, ◌≡◌, false, Option, none, some, leb,
  if◌then◌else◌, Fields, Exception, Result, err, nat_eq, list_eq,
}
use review_signal.Jobs.Lifecycle.{Ends, started, run_job-Ends}
use review_signal.Jobs.Retries.{retries_of, retries_of-retry_policy}
use review_signal.Jobs.Queue.{retry_policy}
use review_signal.Jobs.Record.{JobStatus, put, failed, dead_letter, Job, World}
use review_signal.Jobs.Runner.{Handler, JobType, job_type_of, resolve, call, is_permanent, run_job}

-- `n` deliveries of one message, one after another, with the readings of the clock for each.
unfoldable pub deliver :
    {R : Type 0} → (JobType → Handler R) → ℕ → (ℕ → ℕ × ℕ) → ℕ → World R → World R
deliver handlers key clock zero w = w
deliver handlers key clock (suc n) w =
    let before = deliver handlers key clock n w in
    (run_job handlers key (clock n).0 (clock n).1 before).1

-- A handler that fails for a transient reason whatever the world, and leaves the jobs table alone.
abbrev pub FailsTransiently :
    {R : Type 0} → (Fields → ℕ → World R → Result (Unit {0}) × World R) → Exception → Type 0
FailsTransiently {R} handler e =
    (is_permanent e ≡ false)
    × ((payload : Fields) (key : ℕ) (w : World R)
        → ((handler payload key w).0 ≡ err e) × ((handler payload key w).1.jobs ≡ w.jobs))

-- After `n` failed attempts of a job that allows `m`.
abbrev pub AfterFailures : ℕ → Job → Option Job → Type 0
AfterFailures n job none = ⊥
AfterFailures n job (some now) =
    (now.attempt_count ≡ n)
    × (now.max_attempts ≡ job.max_attempts)
    × (now.job_type ≡ job.job_type)
    × (now.status ≡ (if leb job.max_attempts n then dead_letter else failed))

module _ {R : Type 0} (handlers : JobType → Handler R) (key : ℕ) (e : Exception) (t : JobType)
    (fails : FailsTransiently (handlers t) e) where
  call_known :
      (job : Job) (w : World R)
      → job_type_of job.job_type ≡ some t
      → call handlers job key w ≡ handlers t job.payload key w
  unfolding call resolve
  call_known job w known = rw (known, call, resolve)

  AfterFailures-Ends :
      (n finish : ℕ) (job now : Job) (out : Result (Unit {0})) (row : Option Job)
      → now.attempt_count ≡ suc n
      → now.max_attempts ≡ job.max_attempts
      → now.job_type ≡ job.job_type
      → Ends now finish (err e) (out, row)
      → (out ≡ err e) × AfterFailures (suc n) job row
  AfterFailures-Ends n finish job now out none count same_max same_type ends = cc (ends.1)
  AfterFailures-Ends n finish job now out (some row) count same_max same_type ends =
      ground (arith, fails.0, ends.0, ends.1)

  run_job_again :
      (start finish n : ℕ) (job row : Job) (w : World R)
      → w.jobs key ≡ some row
      → job_type_of row.job_type ≡ some t
      → row.attempt_count ≡ n
      → row.max_attempts ≡ job.max_attempts
      → row.job_type ≡ job.job_type
      → let (out, after) = run_job handlers key start finish w in
        (out ≡ err e) × AfterFailures (suc n) job (after.jobs key)
  run_job_again start finish n job row w h known count same_max same_type =
      AfterFailures-Ends n finish job (started row start) _ _ (omega arith) same_max same_type (
        run_job-Ends handlers key start finish row w (err e) h (rw call_lem raised)
          (rw call_lem (rw kept (ground (arith, eq_refl key)))))
    where
      w' : World R
      w' = record w { jobs = put w.jobs key (started row start) }

      call_lem : call handlers (started row start) key w' ≡ handlers t row.payload key w'
      call_lem = call_known (started row start) w' known

      raised : (handlers t row.payload key w').0 ≡ err e
      raised = (fails.1 row.payload key w').0

      kept : (handlers t row.payload key w').1.jobs ≡ w'.jobs
      kept = (fails.1 row.payload key w').1

  AfterFailures-go :
      (clock : ℕ → ℕ × ℕ) (n : ℕ) (job : Job) (w : World R) (o : Option Job)
      → w.jobs key ≡ o
      → job_type_of job.job_type ≡ some t
      → AfterFailures n job o
      → AfterFailures (suc n) job ((run_job handlers key (clock n).0 (clock n).1 w).1.jobs key)
  AfterFailures-go clock n job w none h known a = absurd a
  AfterFailures-go clock n job w (some row) h known a =
      (run_job_again (clock n).0 (clock n).1 n job row w h (rw a.2 known) a.0 a.1 a.2).1

  -- A job whose handler always fails for a transient reason, from the first of its deliveries on:
  -- after `n` of them, for any `n` of at least one, it has `n` attempts, and it is in the dead
  -- letters exactly when `n` has reached `max_attempts`; before that it is `failed`.
  pub deliver-AfterFailures :
      (clock : ℕ → ℕ × ℕ) (n : ℕ) (job : Job) (w : World R)
      → w.jobs key ≡ some job
      → job_type_of job.job_type ≡ some t
      → job.attempt_count ≡ 0
      → AfterFailures (suc n) job ((deliver handlers key clock (suc n) w).jobs key)
  unfolding deliver
  deliver-AfterFailures clock zero job w h known fresh =
      (run_job_again (clock 0).0 (clock 0).1 0 job job w h known fresh refl refl).1
  deliver-AfterFailures clock (suc n) job w h known fresh =
      AfterFailures-go clock (suc n) job _ _ refl known
        (deliver-AfterFailures clock n job w h known fresh)

  -- So the deliveries that `retry_policy` lets RQ make, the first and all its retries, take such a
  -- job to the dead letters, and every shorter run of them leaves it `failed` and retryable.
  pub retry_policy-dead_letter :
      (clock : ℕ → ℕ × ℕ) (job : Job) (w : World R)
      → w.jobs key ≡ some job
      → job_type_of job.job_type ≡ some t
      → job.attempt_count ≡ 0
      → 1 ≤ job.max_attempts
      → let allowed = retries_of (retry_policy job.max_attempts) in
        ((row : Job) × ((deliver handlers key clock (suc allowed) w).jobs key ≡ some row)
          × (row.status ≡ dead_letter))
        × ((n : ℕ)
            → n < allowed
            → (row : Job) × ((deliver handlers key clock (suc n) w).jobs key ≡ some row)
              × (row.status ≡ failed))
  retry_policy-dead_letter clock job w h known fresh positive = (
    status_of job.max_attempts (suc allowed) _ dead_letter refl
        (deliver-AfterFailures clock allowed job w h known fresh) (ground (arith, reached)),
    λ n less.
        status_of job.max_attempts (suc n) _ failed refl
          (deliver-AfterFailures clock n job w h known fresh) (ground (arith, reached)),
  )
    where
      allowed : ℕ
      allowed = retries_of (retry_policy job.max_attempts)

      reached : 1 + allowed ≡ job.max_attempts
      reached = retries_of-retry_policy job.max_attempts positive

      status_of :
          (m n : ℕ) (o : Option Job) (s : JobStatus)
          → job.max_attempts ≡ m
          → AfterFailures n job o
          → (if leb m n then dead_letter else failed) ≡ s
          → (row : Job) × (o ≡ some row) × (row.status ≡ s)
      status_of m n none s em a es = absurd a
      status_of m n (some row) s em a es = (row, refl, ground arith)
