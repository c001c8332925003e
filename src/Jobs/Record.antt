-- ===== src/Jobs/Record.antt =====
-- The `jobs` row (db/models.py, `Job`), and what the worker process sees of the world.
use review_signal.Base.{ℕ, ◌≤◌, Option, some, List, Text, Fields, if◌then◌else◌, ◌==◌, nat_eq}

-- `JOB_STATUSES`
pub data JobStatus : Type 0 where
  queued running succeeded failed dead_letter : JobStatus

-- `Job`
pub record Job : Type 0 where
  pub id : ℕ
  pub job_type : Text
  pub status : JobStatus
  pub payload : Fields
  pub attempt_count : ℕ
  pub max_attempts : ℕ
  pub queued_at : ℕ
  pub started_at : Option ℕ
  pub finished_at : Option ℕ
  pub error_message : Option Text

-- RQ's `Retry(max=…, interval=…)`.
pub record Retry : Type 0 where
  pub max : ℕ
  pub interval : List ℕ

-- One message on the RQ queue: the job's id and its retry policy.
pub record Message : Type 0 where
  pub job_id : ℕ
  pub retry : Option Retry

-- The committed `jobs` table by primary key, the queue, and all else that a handler may change.
pub record World (R : Type 0) : Type 0 where
  pub jobs : ℕ → Option Job
  pub queue : List Message
  pub rest : R

-- The table with one row written.
abbrev pub put : (ℕ → Option Job) → ℕ → Job → ℕ → Option Job
put jobs key job k = if key == k then some job else jobs k

-- A row's CHECK constraints: `attempt_count >= 0` holds of every natural number.
abbrev pub IsStorable : Job → Type 0
IsStorable job = 1 ≤ job.max_attempts
