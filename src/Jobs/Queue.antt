-- ===== src/Jobs/Queue.antt =====
-- workers/reviewsignal_worker/queue.py: the retry policy, and recording and submitting a job.
use review_signal.Base.{
  ℕ, zero, suc, ◌+◌, ◌-◌, min, Option, none, some, List, [], ◌∷◌, ◌++◌, Text, Fields, end,
  if◌then◌else◌, ltb, get_or, length, Result, ok, err, raise, integrity_error, codes,
}
use review_signal.Jobs.Record.{Job, queued, Retry, World, put}

-- `RETRY_BACKOFF_SECONDS`
abbrev pub retry_backoff_seconds : List ℕ
retry_backoff_seconds = 30 ∷ 120 ∷ 300 ∷ []

-- The comprehension over `range(retries)`: rounds left, and the next index.
unfoldable pub intervals_from : ℕ → ℕ → List ℕ
intervals_from zero i = []
intervals_from (suc n) i =
    get_or retry_backoff_seconds (min i (length retry_backoff_seconds - 1)) 0
    ∷ intervals_from n (i + 1)

-- `retry_policy`; Python's `max_attempts - 1` below zero is below one too.
unfoldable pub retry_policy : ℕ → Option Retry
retry_policy max_attempts =
    let retries = max_attempts - 1 in
    if ltb retries 1
    then none
    else some (record { max = retries; interval = intervals_from retries 0 })

-- The row that `enqueue` adds. The database gives the id and the time.
unfoldable pub new_job : Text → Option Fields → ℕ → (id now : ℕ) → Job
new_job job_type payload max_attempts id now = record {
  id = id;
  job_type = job_type;
  status = queued;
  payload = elim payload [ none ↦ end | some fields ↦ fields ];
  attempt_count = 0;
  max_attempts = max_attempts;
  queued_at = now;
  started_at = none;
  finished_at = none;
  error_message = none;
}

-- Handing the recorded job to RQ, by what Redis answers.
unfoldable pub submit :
    {R : Type 0} → Result (Unit {0}) → (id max_attempts : ℕ) → World R → Result ℕ × World R
submit (err e) id max_attempts w = (err e, w)
submit (ok _) id max_attempts w = (
  ok id,
  record w { queue = w.queue ++ record { job_id = id; retry = retry_policy max_attempts } ∷ [] },
)

-- `enqueue`. The database refuses a row that breaks `ck_jobs_max_attempts_positive`; `push` is what
-- Redis answers to the submission.
unfoldable pub enqueue :
    {R : Type 0}
    → Text
    → Option Fields
    → ℕ
    → (id now : ℕ) → Result (Unit {0})
    → World R
    → Result ℕ × World R
unfolding submit
enqueue job_type payload max_attempts id now push w =
    if ltb max_attempts 1
    then (raise integrity_error (codes "ck_jobs_max_attempts_positive"), w)
    else submit push id max_attempts
        (record w { jobs = put w.jobs id (new_job job_type payload max_attempts id now) })
