-- ===== src/Jobs/Consistency.antt =====
-- The queue against the table: whatever is on the queue is recorded, with the policy it asked for.
use review_signal.Base.{
  ℕ, ◌≤◌, ◌≡◌, refl, ◌∙◌, inl, inr, Option, none, some, arith, ltb, Bool-cases, All, All-append,
  All-map_imp, eq_refl, eq_cases, Text, Fields, Result, ok, err, nat_eq, list_eq,
}
use review_signal.Jobs.Record.{queued, Job, Message, World, put}
use review_signal.Jobs.Queue.{retry_policy, new_job, submit, enqueue}

-- A message names a recorded job that may be attempted, under the retry policy of that job.
abbrev pub IsRecorded : (ℕ → Option Job) → Message → Type 0
IsRecorded jobs m =
    (job : Job) × (jobs m.job_id ≡ some job)
    × (1 ≤ job.max_attempts)
    × (m.retry ≡ retry_policy job.max_attempts)

abbrev pub IsConsistent : {R : Type 0} → World R → Type 0
IsConsistent w = All (IsRecorded w.jobs) w.queue

-- One table follows another where every row is still there with its `max_attempts`.
abbrev pub Keeps : (ℕ → Option Job) → (ℕ → Option Job) → Type 0
Keeps jobs jobs' =
    (k : ℕ) (job : Job)
    → jobs k ≡ some job
    → (job' : Job) × (jobs' k ≡ some job') × (job'.max_attempts ≡ job.max_attempts)

IsRecorded-Keeps :
    (jobs jobs' : ℕ → Option Job)
    → Keeps jobs jobs'
    → (m : Message) → IsRecorded jobs m
    → IsRecorded jobs' m
IsRecorded-Keeps jobs jobs' keeps m (job, e, p, r) =
    let (job', e', same) = keeps m.job_id job e in (job', e', rw same p, rw same r)

Keeps-put :
    (jobs : ℕ → Option Job) (key : ℕ) (job : Job)
    → ((old : Job) → jobs key ≡ some old → job.max_attempts ≡ old.max_attempts)
    → Keeps jobs (put jobs key job)
Keeps-put jobs key job same k old e = elim (eq_cases key k) [
  | inl (hit, p) ↦ (job, rw hit, same old (rw p e))
  | inr (miss, p) ↦ (old, rw miss e, refl)
]

Keeps-trans : (a b c : ℕ → Option Job) → Keeps a b → Keeps b c → Keeps a c
Keeps-trans a b c ab bc k job e =
    let (job₁, e₁, s₁) = ab k job e in let (job₂, e₂, s₂) = bc k job₁ e₁ in (job₂, e₂, s₂ ∙ s₁)

-- What a submission answers with: an id only for a row that waits, never attempted.
abbrev pub IsFresh : (ℕ → Option Job) → ℕ → Result ℕ → Type 0
IsFresh jobs max_attempts (err e) = Unit {0}
IsFresh jobs max_attempts (ok id) =
    (job : Job) × (jobs id ≡ some job)
    × (job.status ≡ queued)
    × (job.attempt_count ≡ 0)
    × (job.max_attempts ≡ max_attempts)

submit-IsConsistent :
    {R : Type 0} (push : Result (Unit {0})) (id : ℕ) (job : Job) (w : World R)
    → w.jobs id ≡ some job
    → 1 ≤ job.max_attempts
    → job.status ≡ queued
    → job.attempt_count ≡ 0
    → IsConsistent w
    → let (r, after) = submit push id job.max_attempts w in
      IsConsistent after × IsFresh after.jobs job.max_attempts r
unfolding submit
submit-IsConsistent (err e) id job w h p s a c = (c, tt)
submit-IsConsistent (ok u) id job w h p s a c =
    (All-append (IsRecorded w.jobs) w.queue _ c ((job, h, p, refl), tt), (job, h, s, a, refl))

-- On every branch (a row that the database refuses, a submission that Redis refuses, a job that is
-- queued) `enqueue` under an unused id keeps each message on the queue naming a recorded job that
-- may be attempted, under that job's retry policy; and an id is returned only for a row recorded as
-- `queued`, with no attempts yet and the attempts asked for.
pub enqueue-IsConsistent :
    {R : Type 0} (job_type : Text) (payload : Option Fields) (max_attempts id now : ℕ)
    (push : Result (Unit {0})) (w : World R)
    → w.jobs id ≡ none
    → IsConsistent w
    → let (r, after) = enqueue job_type payload max_attempts id now push w in
      IsConsistent after × IsFresh after.jobs max_attempts r
unfolding enqueue new_job
enqueue-IsConsistent job_type payload max_attempts id now push w unused c =
    elim (Bool-cases (ltb max_attempts 1)) [
      | inl refused ↦ rw (refused, enqueue) (c, tt)
      | inr allowed ↦
          rw (allowed, enqueue)
            (submit-IsConsistent push id job _ (rw (eq_refl id)) (ground arith) refl refl
              old_messages)
    ]
  where
    job : Job
    job = new_job job_type payload max_attempts id now

    kept : Keeps w.jobs (put w.jobs id job)
    kept = Keeps-put w.jobs id job (λ old e. cc)

    old_messages : All (IsRecorded (put w.jobs id job)) w.queue
    old_messages =
        All-map_imp (IsRecorded w.jobs) (IsRecorded (put w.jobs id job)) w.queue
          (IsRecorded-Keeps w.jobs (put w.jobs id job) kept) c
