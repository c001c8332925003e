-- ===== src/Evaluation/Scores.antt =====
-- ai/evaluation/metrics/scores.py
use review_signal.Base.{
  ℕ, ◌+◌, List, [], ◌∷◌, if◌then◌else◌, length, ◌==◌, nat_eq, list_eq, option_eq,
}
use review_signal.Evaluation.Floats.{Floats}

-- `Score`
pub record Score (F : Type 0) : Type 0 where
  pub precision : F
  pub recall : F
  pub f1 : F
  pub support : ℕ

module _ {F : Type 0} (fl : Floats F) where
  -- `a / b if b else 0.0` of two integers.
  abbrev pub ratio_or_zero : ℕ → ℕ → F
  ratio_or_zero a b = if b == 0 then fl.zero_float else fl.ratio a b

  -- `prf_score`
  unfoldable pub prf_score : (true_positives false_positives false_negatives : ℕ) → Score F
  prf_score true_positives false_positives false_negatives =
      let actual = true_positives + false_negatives in
      let precision = ratio_or_zero true_positives (true_positives + false_positives) in
      let recall = ratio_or_zero true_positives actual in
      let denominator = fl.add_float precision recall in
      record {
        precision = precision;
        recall = recall;
        f1 =
            if fl.is_zero_float denominator
            then fl.zero_float
            else fl.div_float (fl.mul_float (fl.mul_float (fl.ratio 2 1) precision) recall)
                denominator;
        support = actual;
      }

  -- `sum` from the left.
  abbrev pub sum_from : F → List F → F
  sum_from acc [] = acc
  sum_from acc (v ∷ vs) = sum_from (fl.add_float acc v) vs

  -- `mean`
  unfoldable pub mean : List F → F
  mean [] = fl.zero_float
  mean (v ∷ vs) = fl.over (sum_from fl.zero_float (v ∷ vs)) (length (v ∷ vs))
