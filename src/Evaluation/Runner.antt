-- ===== src/Evaluation/Runner.antt =====
-- ai/evaluation/runner.py. What the predictor answers for an item is a parameter.
use review_signal.Base.{
  Bool, not, Option, none, some, List, [], ◌∷◌, ◌++◌, map, if◌then◌else◌, length, ◌==◌, Text, codes,
  value_error, Result, ok, raise, ◌>>=◌, ◌>>◌, nat_eq, list_eq, option_eq,
}
use review_signal.Evaluation.Floats.{Floats}
use review_signal.Evaluation.Dataset.{
  BenchmarkItem, BenchmarkDataset, distinct, sentiment_is_known, gold_sentiment, gold_categories,
}
use review_signal.Evaluation.Classification.{
  ClassificationMetrics, classification_metrics, insert_all,
}
use review_signal.Evaluation.Sentiments.{SentimentMetrics, sentiment_metrics}
use review_signal.Evaluation.Calibration.{CalibrationMetrics, calibration_metrics, in_unit}

-- `PredictedAspect`
pub record PredictedAspect (F : Type 0) : Type 0 where
  pub category_id : Text
  pub sentiment : Text
  pub confidence : F

-- The scores of `EvaluationResult`.
pub record EvaluationScores (F : Type 0) : Type 0 where
  pub classification : ClassificationMetrics F
  pub sentiment : Option (SentimentMetrics F)
  pub calibration : Option (CalibrationMetrics F)

-- The five lists that the loop fills.
pub record Gathered (F : Type 0) : Type 0 where
  pub predicted_categories : List (List Text)
  pub gold_sentiments : List Text
  pub predicted_sentiments : List Text
  pub confidences : List F
  pub correct : List Bool

module _ {F : Type 0} (fl : Floats F) where
  abbrev pub categories : List (PredictedAspect F) → List Text
  categories aspects = map (λ (a : PredictedAspect F). a.category_id) aspects

  -- The loop of `_validated`.
  unfoldable pub check_aspects : List (PredictedAspect F) → Result (Unit {0})
  check_aspects [] = ok tt
  check_aspects (a ∷ rest) =
      let others = check_aspects rest in
      if not (sentiment_is_known a.sentiment)
      then raise value_error (codes "unknown sentiment")
      else if not (in_unit fl a.confidence)
      then raise value_error (codes "confidence out of range")
      else others

  -- `_validated`
  unfoldable pub validated : List (PredictedAspect F) → Result (List (PredictedAspect F))
  unfolding check_aspects
  validated aspects =
      if not (distinct (categories aspects))
      then raise value_error (codes "duplicate category_id predicted")
      else check_aspects aspects >> ok aspects

  -- `predicted[category]`
  unfoldable pub predicted_sentiment : Text → List (PredictedAspect F) → Option Text
  predicted_sentiment category [] = none
  predicted_sentiment category (a ∷ rest) =
      if a.category_id == category then some a.sentiment else predicted_sentiment category rest

  -- The pairs of sentiments at the categories that both name.
  unfoldable pub sentiment_pairs :
      List Text → BenchmarkItem → List (PredictedAspect F) → List (Text × Text)
  sentiment_pairs [] item aspects = []
  sentiment_pairs (c ∷ cs) item aspects =
      let rest = sentiment_pairs cs item aspects in
      elim (gold_sentiment c item.aspects) [
        | none ↦ rest
        | some g ↦ elim (predicted_sentiment c aspects) [ none ↦ rest | some p ↦ (g, p) ∷ rest ]
      ]

  -- `gold.get(category) == sentiment`
  abbrev pub is_correct : BenchmarkItem → PredictedAspect F → Bool
  is_correct item a = gold_sentiment a.category_id item.aspects == some a.sentiment

  -- One round of the loop, in front of what the rounds behind it gather.
  unfoldable pub gather_item : BenchmarkItem → List (PredictedAspect F) → Gathered F → Gathered F
  gather_item item aspects g =
      let pairs = sentiment_pairs (insert_all (categories aspects) []) item aspects in
      record {
        predicted_categories = categories aspects ∷ g.predicted_categories;
        gold_sentiments = map (λ (p : Text × Text). p.0) pairs ++ g.gold_sentiments;
        predicted_sentiments = map (λ (p : Text × Text). p.1) pairs ++ g.predicted_sentiments;
        confidences = map (λ (a : PredictedAspect F). a.confidence) aspects ++ g.confidences;
        correct = map (is_correct item) aspects ++ g.correct;
      }

  module _ (predict : BenchmarkItem → Result (List (PredictedAspect F))) where
    unfoldable pub gather : List BenchmarkItem → Result (Gathered F)
    gather [] = ok (record {
      predicted_categories = [];
      gold_sentiments = [];
      predicted_sentiments = [];
      confidences = [];
      correct = [];
    })
    gather (item ∷ rest) = predict item >>= λ answer.
        validated answer >>= λ aspects. gather rest >>= λ g. ok (gather_item item aspects g)

    -- The scores that are absent when the run produced nothing to score.
    abbrev pub sentiment_part : Gathered F → Result (Option (SentimentMetrics F))
    sentiment_part g =
        if length g.gold_sentiments == 0
        then ok none
        else (sentiment_metrics fl g.gold_sentiments g.predicted_sentiments >>= λ m. ok (some m))

    abbrev pub calibration_part : Gathered F → Result (Option (CalibrationMetrics F))
    calibration_part g =
        if length g.confidences == 0
        then ok none
        else (calibration_metrics fl g.confidences g.correct 10 >>= λ m. ok (some m))

    -- `run_evaluation`
    unfoldable pub run_evaluation : BenchmarkDataset → Result (EvaluationScores F)
    run_evaluation dataset = gather dataset.items >>= λ g.
        classification_metrics fl (gold_categories dataset) g.predicted_categories >>= λ c.
        sentiment_part g >>= λ s. calibration_part g >>= λ k.
        ok (record { classification = c; sentiment = s; calibration = k })
