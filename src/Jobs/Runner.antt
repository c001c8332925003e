-- ===== src/Jobs/Runner.antt =====
-- workers/reviewsignal_worker/runner.py, and the handler registry of jobs/__init__.py.
use review_signal.Base.{
  ℕ, ◌+◌, Option, none, some, Bool, true, false, ◌||◌, ◌++◌, Text, codes, Fields, if◌then◌else◌,
  leb, ◌==◌, nat_eq, list_eq, Result, ok, err, raise, Exception, lookup_error, permanent_job_error,
  runtime_error, describe, truthy_field, truthy,
}
use review_signal.Jobs.Record.{Job, running, succeeded, failed, dead_letter, World, put}

-- A handler takes the payload and the job's id; it may raise, and it may change the world.
abbrev pub Handler : Type 0 → Type 0
Handler R = Fields → ℕ → World R → Result (Unit {0}) × World R

-- The keys of `HANDLERS`.
pub data JobType : Type 0 where
  noop google_backfill google_sync evaluation_run taxonomy_generate : JobType

-- `HANDLERS.get`, up to the handler's key.
unfoldable pub job_type_of : Text → Option JobType
job_type_of name =
    if name == codes "noop"
    then some noop
    else if name == codes "google_backfill"
    then some google_backfill
    else if name == codes "google_sync"
    then some google_sync
    else if name == codes "evaluation_run"
    then some evaluation_run
    else if name == codes "taxonomy_generate"
    then some taxonomy_generate
    else none

-- The `noop` handler of jobs/noop.py.
unfoldable pub noop_handler : {R : Type 0} → Handler R
unfolding truthy
noop_handler payload key w =
    if truthy_field (codes "fail") payload
    then (raise runtime_error (codes "Intentional failure requested by payload."), w)
    else (ok tt, w)

module _ {R : Type 0} (handlers : JobType → Handler R) where
  -- `_resolve`
  unfoldable pub resolve : Text → Result (Handler R)
  unfolding job_type_of
  resolve job_type = elim (job_type_of job_type) [
    | none ↦
        raise lookup_error (codes "No handler registered for job type '" ++ job_type ++ codes "'.")
    | some t ↦ ok (handlers t)
  ]

  -- The body of the `try`: an unknown job type raises like a handler.
  unfoldable pub call : Job → ℕ → World R → Result (Unit {0}) × World R
  call job key w = elim (resolve job.job_type) [
    | err e ↦ (err e, w)
    | ok handler ↦ handler job.payload key w
  ]

-- `_record_success`
unfoldable pub record_success : {R : Type 0} → ℕ → ℕ → World R → World R
record_success key now w = elim (w.jobs key) [
  | none ↦ w
  | some job ↦ record w {
    jobs =
        put w.jobs key
          (record job { status = succeeded; finished_at = some now; error_message = none });
  }
]

-- `_record_failure`
unfoldable pub record_failure :
    {R : Type 0} → ℕ → Exception → (attempt max_attempts : ℕ) → Bool → ℕ → World R → World R
record_failure key exc attempt max_attempts permanent now w =
    let exhausted = permanent || leb max_attempts attempt in
    elim (w.jobs key) [
      | none ↦ w
      | some job ↦ record w {
        jobs = put w.jobs key (record job {
          status = if exhausted then dead_letter else failed;
          finished_at = some now;
          error_message = some (describe exc);
        });
      }
    ]

-- `except PermanentJobError`
abbrev pub is_permanent : Exception → Bool
is_permanent e = elim e.class_of [ permanent_job_error ↦ true | _ ↦ false ]

-- What follows the handler: the three ways out of the `try`. A transient failure is raised again.
unfoldable pub conclude :
    {R : Type 0}
    → ℕ
    → (attempt max_attempts now : ℕ) → Result (Unit {0}) × World R
    → Result (Unit {0}) × World R
conclude key attempt max_attempts now (ok _, w) = (ok tt, record_success key now w)
conclude key attempt max_attempts now (err e, w) =
    if is_permanent e
    then (ok tt, record_failure key e attempt max_attempts true now w)
    else (err e, record_failure key e attempt max_attempts false now w)

-- `run_job` on a parsed id: `start` and `finish` are its readings of the clock.
unfoldable pub run_job :
    {R : Type 0}
    → (JobType → Handler R)
    → ℕ
    → (start finish : ℕ) → World R
    → Result (Unit {0}) × World R
run_job handlers key start finish w = elim (w.jobs key) [
  | none ↦ (ok tt, w)
  | some job ↦
      let started : Job = record job {
        status = running;
        started_at = some start;
        attempt_count = job.attempt_count + 1;
      } in
      conclude key started.attempt_count started.max_attempts finish
        (call handlers started key (record w { jobs = put w.jobs key started }))
]
