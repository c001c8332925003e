-- ===== src/Evaluation/Job.antt =====
-- workers/reviewsignal_worker/jobs/evaluation.py over `EvaluationRunRepository` of
-- repositories/evaluation_runs.py: one attempt at an evaluation job, session by session. The
-- registered predictors and the benchmark's file are parameters.
use review_signal.Base.{
  ℕ, Bool, true, false, not, ◌&&◌, Option, none, some, List, [], ◌∷◌, ◌++◌, leb, if◌then◌else◌,
  length, any, ◌==◌, Text, codes, text, Fields, get_field, ExceptionClass, permanent_job_error,
  integrity_error, external, Exception, Result, err, ok, raise, ◌>>=◌, nat_eq, list_eq, option_eq,
}
use review_signal.Evaluation.Floats.{Floats}
use review_signal.Evaluation.Dataset.{BenchmarkDataset, BenchmarkItem}
use review_signal.Evaluation.Runner.{EvaluationScores, PredictedAspect, run_evaluation}

-- `Predictor`
pub record Predictor (F : Type 0) : Type 0 where
  pub name : Text
  pub version : Option Text
  pub prompt_version : Option Text
  pub predict : BenchmarkItem → Result (List (PredictedAspect F))

-- `EvaluationResult`: the scores and what they were made of.
pub record EvaluationResult (F : Type 0) : Type 0 where
  pub dataset_version : Text
  pub taxonomy_version : Option Text
  pub model_name : Text
  pub model_version : Option Text
  pub prompt_version : Option Text
  pub scores : EvaluationScores F

-- `EvaluationRun`
pub record EvaluationRun (F : Type 0) : Type 0 where
  pub id : ℕ
  pub job_id : Option ℕ
  pub evaluation_type : Text
  pub model_name : Text
  pub model_version : Option Text
  pub prompt_version : Option Text
  pub taxonomy_version_id : Option ℕ
  pub taxonomy_version : Option Text
  pub dataset_version : Text
  pub metrics : EvaluationScores F
  pub notes : Option Text
  pub created_at : ℕ

abbrev fits : Option Text → Bool
fits none = true
fits (some t) = leb (length t) 64

module _ {F : Type 0} where
  -- The column lengths of `evaluation_runs`.
  unfoldable pub columns_fit : EvaluationRun F → Bool
  columns_fit r =
      leb (length r.evaluation_type) 64
      && leb (length r.model_name) 128
      && fits r.model_version
      && fits r.prompt_version
      && fits r.taxonomy_version
      && leb (length r.dataset_version) 64

  abbrev pub is_of_job : ℕ → EvaluationRun F → Bool
  is_of_job job_id r = r.job_id == some job_id

  -- `already_recorded`
  unfoldable pub already_recorded : ℕ → List (EvaluationRun F) → Bool
  already_recorded job_id rows = any (is_of_job job_id) rows

  -- The row that `record` adds, as the handler calls it.
  unfoldable pub new_run : EvaluationResult F → Text → ℕ → (id now : ℕ) → EvaluationRun F
  new_run result evaluation_type job_id id now = record {
    id = id;
    job_id = some job_id;
    evaluation_type = evaluation_type;
    model_name = result.model_name;
    model_version = result.model_version;
    prompt_version = result.prompt_version;
    taxonomy_version_id = none;
    taxonomy_version = result.taxonomy_version;
    dataset_version = result.dataset_version;
    metrics = result.scores;
    notes = none;
    created_at = now;
  }

  -- The flush and commit behind `record`: the lengths, the foreign key into `jobs`, and
  -- `uq_evaluation_runs_job_id`.
  unfoldable pub record_run :
      (job_exists : Bool)
      → ℕ
      → EvaluationRun F
      → List (EvaluationRun F)
      → Result (Unit {0}) × List (EvaluationRun F)
  unfolding already_recorded columns_fit
  record_run job_exists job_id run rows =
      if not (columns_fit run)
      then (raise (external (codes "DataError")) (codes "value too long"), rows)
      else if not job_exists
      then (raise integrity_error (codes "evaluation_runs_job_id_fkey"), rows)
      else if already_recorded job_id rows
      then (raise integrity_error (codes "uq_evaluation_runs_job_id"), rows)
      else (ok tt, rows ++ run ∷ [])

-- `payload["evaluation_type"]`, which the service always queues as a text.
abbrev pub payload_type : Fields → Result Text
payload_type payload = elim (get_field (codes "evaluation_type") payload) [
  | none ↦ raise (external (codes "KeyError")) (codes "'evaluation_type'")
  | some j ↦ elim j [
    | text t ↦ ok t
    | _ ↦ raise permanent_job_error (codes "No predictor is registered for that evaluation type.")
  ]
]

-- Where an attempt stands: before the guard's session, before the session of `record`, before the
-- session that looks again, or at its end.
pub data Phase (F : Type 0) : Type 0 where
  guarding : Phase F
  inserting : EvaluationRun F → Phase F
  rechecking : Exception → Phase F
  finished : Result (Unit {0}) → Phase F

-- `except IntegrityError`
abbrev pub is_integrity : ExceptionClass → Bool
is_integrity integrity_error = true
is_integrity other = false

-- What an attempt is given: its payload, the configuration, and the database's next id and clock.
pub record Attempt (F : Type 0) : Type 0 where
  pub payload : Fields
  pub predictors : Text → Option (Predictor F)
  pub benchmark_path : Text
  pub load_benchmark : Text → Result BenchmarkDataset
  pub job_exists : Bool
  pub id : ℕ
  pub now : ℕ

module _ {F : Type 0} (fl : Floats F) (repr : Text → Text) where
  -- `run_evaluation` with the identity that it returns.
  unfoldable pub evaluate : BenchmarkDataset → Predictor F → Result (EvaluationResult F)
  unfolding run_evaluation
  evaluate dataset predictor = run_evaluation fl predictor.predict dataset >>= λ scores.
      ok (record {
        dataset_version = dataset.dataset_version;
        taxonomy_version = dataset.taxonomy_version;
        model_name = predictor.name;
        model_version = predictor.version;
        prompt_version = predictor.prompt_version;
        scores = scores;
      })

  -- `evaluation_run` between the guard and the insert.
  unfoldable pub score : Attempt F → (evaluation_type : Text) → Result (EvaluationResult F)
  unfolding evaluate
  score attempt evaluation_type = elim (attempt.predictors evaluation_type) [
    | none ↦ raise permanent_job_error (
        codes "No predictor is registered for evaluation type "
        ++ (repr evaluation_type ++ codes "."))
    | some predictor ↦
        if attempt.benchmark_path == []
        then raise permanent_job_error (codes "No benchmark is configured; set BENCHMARK_PATH.")
        else (attempt.load_benchmark attempt.benchmark_path >>= λ dataset.
            evaluate dataset predictor)
  ]

  -- The next session of an attempt, with what stands between it and the one behind it.
  unfoldable pub advance :
      ℕ → Attempt F → Phase F → List (EvaluationRun F) → Phase F × List (EvaluationRun F)
  unfolding score record_run already_recorded new_run
  advance job_id attempt guarding rows = elim (payload_type attempt.payload) [
    | err e ↦ (finished (err e), rows)
    | ok evaluation_type ↦
        if already_recorded job_id rows
        then (finished (ok tt), rows)
        else (elim (score attempt evaluation_type) [
          | err e ↦ (finished (err e), rows)
          | ok result ↦
              (inserting (new_run result evaluation_type job_id attempt.id attempt.now), rows)
        ])
  ]
  advance job_id attempt (inserting run) rows =
      let (r, rows') = record_run attempt.job_exists job_id run rows in
      elim r [
        | ok u ↦ (finished (ok tt), rows')
        | err e ↦ (if is_integrity e.class_of then rechecking e else finished (err e), rows')
      ]
  advance job_id attempt (rechecking e) rows =
      (finished (if already_recorded job_id rows then ok tt else err e), rows)
  advance job_id attempt (finished r) rows = (finished r, rows)

  -- `evaluation_run`, where nothing else happens to the table meanwhile.
  unfoldable pub evaluation_run :
      Attempt F → ℕ → List (EvaluationRun F) → Phase F × List (EvaluationRun F)
  unfolding advance
  evaluation_run attempt job_id rows =
      let (p₁, rows₁) = advance job_id attempt guarding rows in
      let (p₂, rows₂) = advance job_id attempt p₁ rows₁ in advance job_id attempt p₂ rows₂

  -- Attempts at one job whose sessions are interleaved: each number is the attempt that moves next.
  abbrev pub set_phase : (ℕ → Phase F) → ℕ → Phase F → ℕ → Phase F
  set_phase phases k p j = if k == j then p else phases j

  unfoldable pub interleave :
      ℕ
      → (ℕ → Attempt F)
      → List ℕ
      → (ℕ → Phase F)
      → List (EvaluationRun F)
      → (ℕ → Phase F) × List (EvaluationRun F)
  unfolding advance
  interleave job_id attempts [] phases rows = (phases, rows)
  interleave job_id attempts (k ∷ rest) phases rows =
      let (p, rows') = advance job_id (attempts k) (phases k) rows in
      interleave job_id attempts rest (set_phase phases k p) rows'
