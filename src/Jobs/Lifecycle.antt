-- ===== src/Jobs/Lifecycle.antt =====
-- What one call of `run_job` does to the job's row, and that the queue stays consistent.
use review_signal.Base.{
  ℕ, ◌+◌, ◌≡◌, ◌||◌, Option, none, some, arith, leb, if◌then◌else◌, eq_refl, describe, Result, ok,
  err, nat_eq, list_eq,
}
use review_signal.Jobs.Record.{running, succeeded, failed, dead_letter, Job, World, put}
use review_signal.Jobs.Runner.{
  Handler, JobType, call, record_success, record_failure, is_permanent, conclude, run_job,
}

-- The row while its handler runs.
abbrev pub started : Job → ℕ → Job
started job now = record job {
  status = running;
  started_at = some now;
  attempt_count = job.attempt_count + 1;
}

-- How a run that began with the started row `job` must end at time `now`, by what the handler did:
-- what is raised to RQ, and the row that is left.
abbrev pub Ends : Job → ℕ → Result (Unit {0}) → Result (Unit {0}) × Option Job → Type 0
Ends job now (ok _) (out, row) =
    (out ≡ ok tt)
    × (row ≡ some (record job { status = succeeded; finished_at = some now; error_message = none }))
Ends job now (err e) (out, row) =
    (out ≡ (if is_permanent e then ok tt else err e))
    × (row
        ≡ some (record job {
          status =
              if is_permanent e || leb job.max_attempts job.attempt_count
              then dead_letter
              else failed;
          finished_at = some now;
          error_message = some (describe e);
        }))

conclude-Ends :
    {R : Type 0} (key now : ℕ) (job : Job) (r : Result (Unit {0}))
    (called : Result (Unit {0}) × World R)
    → called.0 ≡ r
    → called.1.jobs key ≡ some job
    → let (out, after) = conclude key job.attempt_count job.max_attempts now called in
      Ends job now r (out, after.jobs key)
unfolding conclude record_success record_failure
conclude-Ends key now job (ok u) called e h = ground (arith, eq_refl key)
conclude-Ends key now job (err x) called e h = ground (arith, eq_refl key)

-- For a recorded job whose handler leaves the job's own row as `run_job` wrote it: a success ends
-- `succeeded`; a permanent failure ends `dead_letter` at once and is not raised; any other failure
-- is raised again and ends `dead_letter` exactly when the attempts are used up, else `failed`.
pub run_job-Ends :
    {R : Type 0} (handlers : JobType → Handler R) (key start finish : ℕ) (job : Job) (w : World R)
    (r : Result (Unit {0}))
    → w.jobs key ≡ some job
    → (call handlers
        (started job start)
        key
        (record w { jobs = put w.jobs key (started job start) })).0
      ≡ r
    → (call handlers
          (started job start)
          key
          (record w { jobs = put w.jobs key (started job start) })).1.jobs
        key
      ≡ some (started job start)
    → let (out, final) = run_job handlers key start finish w in
      Ends (started job start) finish r (out, final.jobs key)
unfolding run_job
run_job-Ends handlers key start finish job w r h called kept =
    rw (h, run_job) (conclude-Ends key finish (started job start) r _ called kept)
