-- ===== src/Jobs/Examples.antt =====
-- Runs of the job functions on concrete jobs, and the theorems at those inputs.
use review_signal.Base.{
  ℕ, suc, ◌<◌, ◌≡◌, refl, true, none, some, [], ◌∷◌, arith, codes, boolean, end, field, truthy,
  source_fetch_error, runtime_error, Exception, ok, err, nat_eq, list_eq,
}
use review_signal.Jobs.Record.{queued, failed, dead_letter, Job, World, put}
use review_signal.Jobs.Queue.{intervals_from, retry_policy, enqueue}
use review_signal.Jobs.Runner.{
  Handler, JobType, noop, job_type_of, noop_handler, resolve, call, conclude, run_job,
}
use review_signal.Jobs.Retries.{retries_of, Follows, retry_policy-Follows}
use review_signal.Jobs.Lifecycle.{started, Ends, run_job-Ends}
use review_signal.Jobs.Delivery.{
  deliver, FailsTransiently, AfterFailures, deliver-AfterFailures, retry_policy-dead_letter,
}
use review_signal.Jobs.Consistency.{IsConsistent, IsFresh, enqueue-IsConsistent}

abbrev noop_job : Job
noop_job = record {
  id = 7;
  job_type = codes "noop";
  status = queued;
  payload = field (codes "fail") (boolean true) end;
  attempt_count = 0;
  max_attempts = 3;
  queued_at = 100;
  started_at = none;
  finished_at = none;
  error_message = none;
}

abbrev world : World (Unit {0})
world = record {
  jobs = put (λ k. none) 7 noop_job;
  queue = record { job_id = 7; retry = retry_policy 3 } ∷ [];
  rest = tt;
}

abbrev handlers : JobType → Handler (Unit {0})
handlers t = noop_handler

abbrev failure : Exception
failure = record {
  class_of = runtime_error;
  message = codes "Intentional failure requested by payload.";
}

retry_policy_five : retry_policy 5 ≡ some (record { max = 4; interval = 30 ∷ 120 ∷ 300 ∷ 300 ∷ [] })
unfolding retry_policy intervals_from
retry_policy_five = refl

-- A payload that asks `noop` to fail makes the job `failed`, and the error goes back to RQ.
run_job_noop : (run_job handlers 7 200 210 world).0 ≡ err failure
unfolding run_job call resolve job_type_of noop_handler conclude truthy
run_job_noop = refl

retry_policy-Follows_example : Follows 5 (retry_policy 5)
retry_policy-Follows_example = retry_policy-Follows 5

run_job-Ends_example :
    let (out, final) = run_job handlers 7 200 210 world in
    Ends (started noop_job 200) 210 (err failure) (out, final.jobs 7)
unfolding call resolve job_type_of noop_handler truthy
run_job-Ends_example = run_job-Ends handlers 7 200 210 noop_job world (err failure) refl refl refl

-- A handler that always fails to reach its source.
abbrev unreachable : Exception
unreachable = record { class_of = source_fetch_error; message = codes "timed out" }

abbrev failing : JobType → Handler (Unit {0})
failing t payload key w = (err unreachable, w)

abbrev clock : ℕ → ℕ × ℕ
clock n = (n, n)

failing-FailsTransiently : FailsTransiently (failing noop) unreachable
failing-FailsTransiently = (refl, λ payload key w. (refl, refl))

deliver-AfterFailures_example : AfterFailures 2 noop_job ((deliver failing 7 clock 2 world).jobs 7)
unfolding job_type_of
deliver-AfterFailures_example =
    deliver-AfterFailures failing 7 unreachable noop failing-FailsTransiently clock 1 noop_job world
      refl refl refl

retry_policy-dead_letter_example :
    let allowed = retries_of (retry_policy 3) in
    ((row : Job) × ((deliver failing 7 clock (suc allowed) world).jobs 7 ≡ some row)
      × (row.status ≡ dead_letter))
    × ((n : ℕ)
        → n < allowed
        → (row : Job) × ((deliver failing 7 clock (suc n) world).jobs 7 ≡ some row)
          × (row.status ≡ failed))
unfolding job_type_of
retry_policy-dead_letter_example =
    retry_policy-dead_letter failing 7 unreachable noop failing-FailsTransiently clock noop_job
      world refl refl refl (omega arith)

world-IsConsistent : IsConsistent world
world-IsConsistent = ((noop_job, refl, omega arith, refl), tt)

enqueue-IsConsistent_example :
    let (r, after) = enqueue (codes "google_sync") none 3 8 300 (ok tt) world in
    IsConsistent after × IsFresh after.jobs 3 r
enqueue-IsConsistent_example =
    enqueue-IsConsistent (codes "google_sync") none 3 8 300 (ok tt) world refl world-IsConsistent
