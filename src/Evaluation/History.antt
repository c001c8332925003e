-- ===== src/Evaluation/History.antt =====
-- services/evaluation.py over `EvaluationRunReader` of repositories/evaluation_runs.py: the history of
-- runs, and queueing one.
use review_signal.Base.{
  ℕ, Bool, ◌&&◌, ◌||◌, Option, none, some, List, ◌++◌, ltb, leb, find_first, ◌==◌, Text, codes,
  text, end, field, sort_by, resource_not_found_error, model_unavailable_error, Result, ok, raise,
  nat_eq, list_eq, option_eq,
}
use review_signal.Jobs.Record.{World}
use review_signal.Jobs.Queue.{enqueue}
use review_signal.Evaluation.Job.{EvaluationRun, Predictor}

-- `EVALUATION_JOB_TYPE`
abbrev pub evaluation_job_type : Text
evaluation_job_type = codes "evaluation_run"

module _ {F : Type 0} where
  -- The order of `list_newest_first`.
  abbrev pub newer_run : EvaluationRun F → EvaluationRun F → Bool
  newer_run r s = ltb s.created_at r.created_at || (r.created_at == s.created_at && leb s.id r.id)

  -- `list_runs`
  unfoldable pub list_runs : List (EvaluationRun F) → List (EvaluationRun F)
  unfolding sort_by
  list_runs rows = sort_by newer_run rows

  -- `get_run`
  unfoldable pub get_run : ℕ → List (EvaluationRun F) → Result (EvaluationRun F)
  get_run run_id rows = elim (find_first (λ (r : EvaluationRun F). r.id == run_id) rows) [
    | none ↦ raise resource_not_found_error (codes "Evaluation run not found.")
    | some run ↦ ok run
  ]

  -- `queue_run`, by the registered predictors and what Redis answers.
  unfoldable pub queue_run :
      {R : Type 0}
      → (predictors : Text → Option (Predictor F)) → (repr : Text → Text) → (evaluation_type : Text)
      → (id now : ℕ) → Result (Unit {0})
      → World R
      → Result ℕ × World R
  unfolding enqueue
  queue_run predictors repr evaluation_type id now push w = elim (predictors evaluation_type) [
    | none ↦ (
      raise model_unavailable_error (
          codes "No predictor is registered for evaluation type "
          ++ (repr evaluation_type ++ codes ".")),
      w,
    )
    | some predictor ↦
        enqueue evaluation_job_type
          (some (field (codes "evaluation_type") (text evaluation_type) end)) 3 id now push w
  ]
