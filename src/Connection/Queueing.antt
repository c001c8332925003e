-- ===== src/Connection/Queueing.antt =====
-- The routes that queue an ingestion job, up to the worker that finds it.
use review_signal.Credentials.Record.{SourceCredential}
use review_signal.Jobs.Queue.{enqueue, submit, new_job, retry_policy, intervals_from}
use review_signal.Base.{
  ℕ, ◌≡◌, refl, inl, inr, true, false, none, some, List, [], ◌∷◌, ◌++◌, Bool-cases, Text, codes,
  google_not_connected_error, Result, err, ok, raise, ◌>>=◌, nat_eq, list_eq, option_eq, Bool,
  eq_refl,
}
use review_signal.Jobs.Record.{World, Job, put, queued}
use review_signal.Jobs.Runner.{job_type_of, JobType}
use review_signal.Connection.View.{view, is_granted}
use review_signal.Connection.Simulation.{ensure_connected-view}
use review_signal.Connection.Ingest.{Mode, backfill_mode, incremental_mode}
use review_signal.Connection.Routes.{JobAcceptedPayload, enqueue_google}

-- The job type of each route, and the worker's handler of it.
abbrev pub job_type_for : Mode → Text
job_type_for backfill_mode = codes "google_backfill"
job_type_for incremental_mode = codes "google_sync"

abbrev pub handler_for : Mode → JobType
handler_for backfill_mode = JobType.google_backfill
handler_for incremental_mode = JobType.google_sync

module _ {R : Type 0} where
  -- A job that waits: its row is fresh, its type has a handler, and it may be tried three times.
  abbrev pub Waits : Mode → ℕ → World R → Type 0
  Waits mode id w =
      (job : Job) × (w.jobs id ≡ some job)
      × (job_type_of job.job_type ≡ some (handler_for mode))
      × (job.status ≡ queued)
      × (job.attempt_count ≡ 0)
      × (job.max_attempts ≡ 3)

  abbrev pub Queued :
      Mode
      → ℕ
      → World R
      → (granted : Bool) → Result (Unit {0})
      → Result JobAcceptedPayload × World R
      → Type 0
  Queued mode id w granted push (r, w') = elim granted [
    | false ↦
        (r
          ≡ raise google_not_connected_error
              (codes "Google is not connected; connect it before syncing."))
        × (w' ≡ w)
    | true ↦ Waits mode id w' × (elim push [
      | err e ↦ (r ≡ err e) × (w'.queue ≡ w.queue)
      | ok u ↦
          (r ≡ ok (record { job_id = id; status = codes "queued"; job_type = job_type_for mode }))
          × (w'.queue
              ≡ w.queue
                ++ record {
                  job_id = id;
                  retry = some (record { max = 2; interval = 30 ∷ 120 ∷ [] });
                }
                  ∷ [])
    ])
  ]

  -- A route that queues ingestion does so exactly where there is a grant, and else raises
  -- `GoogleNotConnectedError` and records nothing. Where Redis takes it, the job is recorded as
  -- queued under a type that the worker has the matching handler for, and its message retries twice,
  -- after 30 and 120 seconds; where Redis fails, the error is the route's, and the job is recorded
  -- without a message.
  pub enqueue_google-Queued :
      (mode : Mode) (rows : List SourceCredential) (id now : ℕ) (push : Result (Unit {0}))
      (w : World R)
      → Queued mode id w
          (is_granted (view rows))
          push
          (enqueue_google (job_type_for mode) rows id now push w)
  unfolding enqueue_google enqueue submit job_type_of new_job retry_policy intervals_from
  enqueue_google-Queued mode rows id now push w = elim (Bool-cases (is_granted (view rows))) [
    | inr shut ↦ rw (enqueue_google, ensure_connected-view rows, shut) (refl, refl)
    | inl live ↦ rw (enqueue_google, ensure_connected-view rows, live) (go mode push)
  ]
    where
      recorded :
          (mode : Mode)
          → put w.jobs id (new_job (job_type_for mode) none 3 id now) id
            ≡ some (new_job (job_type_for mode) none 3 id now)
      recorded mode = rw (eq_refl id) refl

      has_handler : (mode : Mode) → job_type_of (job_type_for mode) ≡ some (handler_for mode)
      has_handler backfill_mode = refl
      has_handler incremental_mode = refl

      waits :
          (mode : Mode)
          → (job : Job) × (put w.jobs id (new_job (job_type_for mode) none 3 id now) id ≡ some job)
            × (job_type_of job.job_type ≡ some (handler_for mode))
            × (job.status ≡ queued)
            × (job.attempt_count ≡ 0)
            × (job.max_attempts ≡ 3)
      waits mode = (
        new_job (job_type_for mode) none 3 id now,
        recorded mode,
        has_handler mode,
        refl,
        refl,
        refl,
      )

      go :
          (mode : Mode) (push : Result (Unit {0}))
          → Queued mode id w true push (
              let (r, w') = enqueue (job_type_for mode) none 3 id now push w in
              (
                (r >>= λ job_id. ok (record {
                  job_id = job_id;
                  status = codes "queued";
                  job_type = job_type_for mode;
                })),
                w',
              ))
      go backfill_mode (ok u) = (waits backfill_mode, (refl, refl))
      go backfill_mode (err e) = (waits backfill_mode, (refl, refl))
      go incremental_mode (ok u) = (waits incremental_mode, (refl, refl))
      go incremental_mode (err e) = (waits incremental_mode, (refl, refl))
