-- ===== src/Evaluation/Examples.antt =====
-- The metrics on two predictions, with thousandths in place of floats.
use review_signal.Evaluation.OneRun.{runs_of, Standing, interleave-runs_of}
use review_signal.Evaluation.Job.{Attempt, interleave, Predictor, Phase, EvaluationRun, guarding}
use review_signal.Base.{
  ℕ, zero, suc, ◌+◌, ◌-◌, ◌*◌, ◌/◌, ◌≤◌, ◌≡◌, refl, Bool, true, false, none, some, List, [], ◌∷◌,
  arith, leb, length, ◌==◌, Text, codes, text, end, field, ok, nat_eq, list_eq, option_eq,
}
use review_signal.Evaluation.Floats.{Floats}
use review_signal.Evaluation.Classification.{zip}
use review_signal.Evaluation.Sentiments.{
  Sentiment, known_sentiments, positive, neutral, negative, score_sentiments, sentiment_metrics,
}
use review_signal.Evaluation.Calibration.{calibrate, calibration_metrics, edges_from, bucket_index}
use review_signal.Evaluation.Totals.{bucket_total, calibration_metrics-Accounts}

abbrev divided : ℕ → ℕ → ℕ
divided a zero = 0
divided a (suc b) = a / suc b

abbrev thousandths : Floats ℕ
thousandths = record {
  zero_float = 0;
  one_float = 1000;
  add_float = λ a b. a + b;
  sub_float = λ a b. (a - b) + (b - a);
  mul_float = λ a b. a * b / 1000;
  div_float = λ a b. divided (a * 1000) b;
  abs_float = λ a. a;
  ratio = λ a b. divided (a * 1000) b;
  over = divided;
  leb_float = leb;
  is_zero_float = λ a. a == 0;
}

abbrev confidences : List ℕ
confidences = 900 ∷ 1000 ∷ []

abbrev correct : List Bool
correct = true ∷ false ∷ []

-- A confidence of exactly 1.0 belongs to the last bucket.
last_bucket : bucket_index thousandths (edges_from thousandths 11 0 10) 10 1000 ≡ 9
unfolding bucket_index edges_from
last_bucket = refl

calibrated :
    calibration_metrics thousandths confidences correct 10
    ≡ ok (calibrate thousandths (zip confidences correct) 10)
unfolding calibration_metrics
calibrated = refl

calibration_metrics-Accounts_example :
    let m = calibrate thousandths (zip confidences correct) 10 in
    (bucket_total thousandths m.buckets ≡ m.prediction_count)
    × (m.prediction_count ≡ 2)
    × (length m.buckets ≡ 10)
calibration_metrics-Accounts_example =
    calibration_metrics-Accounts thousandths confidences correct 10
      (calibrate thousandths (zip confidences correct) 10) calibrated

abbrev gold : List Text
gold = codes "positive" ∷ codes "negative" ∷ []

abbrev predicted : List Text
predicted = codes "positive" ∷ codes "neutral" ∷ []

abbrev pairs : List (Sentiment × Sentiment)
pairs = (positive, positive) ∷ (negative, neutral) ∷ []

scored : sentiment_metrics thousandths gold predicted ≡ ok (score_sentiments thousandths pairs)
unfolding sentiment_metrics known_sentiments
scored = refl

-- Two attempts at job 7, whose predictor finds nothing in an empty benchmark.
abbrev silent : Predictor ℕ
silent = record {
  name = codes "silent";
  version = none;
  prompt_version = none;
  predict = λ item. ok [];
}

abbrev attempt : ℕ → Attempt ℕ
attempt k = record {
  payload = field (codes "evaluation_type") (text (codes "aspects")) end;
  predictors = λ t. some silent;
  benchmark_path = codes "b.json";
  load_benchmark =
      λ path. ok (record { dataset_version = codes "v0"; taxonomy_version = none; items = [] });
  job_exists = true;
  id = k;
  now = 100 + k;
}

abbrev both_start : ℕ → Phase ℕ
both_start k = guarding

abbrev no_runs : List (EvaluationRun ℕ)
no_runs = []

-- Both pass the guard before either inserts; the second one's insert is refused, and it looks again.
abbrev overlapping : List ℕ
overlapping = 1 ∷ 2 ∷ 1 ∷ 2 ∷ 2 ∷ []

interleave-runs_of_example :
    let (phases', rows') =
      interleave thousandths (λ t. t) 7 attempt overlapping both_start no_runs in
    (runs_of 7 rows' ≤ 1) × ((k : ℕ) → Standing 7 rows' (phases' k))
interleave-runs_of_example =
    interleave-runs_of thousandths (λ t. t) 7 attempt overlapping both_start no_runs (omega arith)
      (λ k. tt)
