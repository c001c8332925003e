-- ===== src/Evaluation/Calibration.antt =====
-- ai/evaluation/metrics/calibration.py
use review_signal.Base.{
  ℕ, zero, suc, ◌+◌, ◌-◌, min, Bool, not, ◌&&◌, List, [], ◌∷◌, ltb, if◌then◌else◌, length, all,
  ◌==◌, codes, value_error, Result, ok, raise, nat_eq, list_eq, option_eq,
}
use review_signal.Evaluation.Floats.{Floats}
use review_signal.Evaluation.Classification.{zip}

-- `ReliabilityBucket`
pub record ReliabilityBucket (F : Type 0) : Type 0 where
  pub lower : F
  pub upper : F
  pub count : ℕ
  pub mean_confidence : F
  pub accuracy : F

-- `CalibrationMetrics`
pub record CalibrationMetrics (F : Type 0) : Type 0 where
  pub brier_score : F
  pub expected_calibration_error : F
  pub buckets : List (ReliabilityBucket F)
  pub prediction_count : ℕ

-- One index of `counts`, `confidence_sums` and `correct_counts`.
pub record Bin (F : Type 0) : Type 0 where
  pub bin_count : ℕ
  pub confidence_sum : F
  pub correct_count : ℕ

module _ {F : Type 0} (fl : Floats F) where
  -- `edges[i:]`, with `n` edges to go.
  unfoldable pub edges_from : ℕ → ℕ → ℕ → List F
  edges_from zero i bucket_count = []
  edges_from (suc n) i bucket_count = fl.ratio i bucket_count ∷ edges_from n (i + 1) bucket_count

  -- `bisect_right` in a sorted list: how many of its elements come before the first greater one.
  unfoldable pub bisect_right : List F → F → ℕ
  bisect_right [] x = 0
  bisect_right (e ∷ es) x = if fl.leb_float e x then suc (bisect_right es x) else 0

  -- The bucket of a confidence, which is not below the first edge, 0.0.
  unfoldable pub bucket_index : List F → ℕ → F → ℕ
  unfolding bisect_right
  bucket_index edges bucket_count c = min (bisect_right edges c - 1) (bucket_count - 1)

  abbrev pub float_of : Bool → F
  float_of b = if b then fl.one_float else fl.zero_float

  abbrev pub tallied : F → Bool → Bin F → Bin F
  tallied c correct b = record {
    bin_count = b.bin_count + 1;
    confidence_sum = fl.add_float b.confidence_sum c;
    correct_count = b.correct_count + (if correct then 1 else 0);
  }

  -- `counts[index] += 1` and its two kin.
  unfoldable pub tally_at : ℕ → F → Bool → List (Bin F) → List (Bin F)
  tally_at i c correct [] = []
  tally_at zero c correct (b ∷ bs) = tallied c correct b ∷ bs
  tally_at (suc i) c correct (b ∷ bs) = b ∷ tally_at i c correct bs

  abbrev pub empty_bin : Bin F
  empty_bin = record { bin_count = 0; confidence_sum = fl.zero_float; correct_count = 0 }

  abbrev pub empty_bins : ℕ → List (Bin F)
  empty_bins zero = []
  empty_bins (suc n) = empty_bin ∷ empty_bins n

  -- The first loop: the bins, and the squared error.
  unfoldable pub fill : List F → ℕ → List (F × Bool) → List (Bin F) → F → List (Bin F) × F
  fill edges bucket_count [] bins squared = (bins, squared)
  fill edges bucket_count ((c, correct) ∷ rest) bins squared =
      let error = fl.sub_float c (float_of correct) in
      fill edges bucket_count rest (tally_at (bucket_index edges bucket_count c) c correct bins)
        (fl.add_float squared (fl.mul_float error error))

  abbrev pub bucket_of : F → F → Bin F → ReliabilityBucket F
  bucket_of lower upper b = record {
    lower = lower;
    upper = upper;
    count = b.bin_count;
    mean_confidence =
        if b.bin_count == 0 then fl.zero_float else fl.over b.confidence_sum b.bin_count;
    accuracy = if b.bin_count == 0 then fl.zero_float else fl.ratio b.correct_count b.bin_count;
  }

  -- The second loop: the buckets from index `i` on.
  unfoldable pub buckets_from : List F → List (Bin F) → List (ReliabilityBucket F)
  buckets_from (lower ∷ upper ∷ edges) (b ∷ bs) =
      bucket_of lower upper b ∷ buckets_from (upper ∷ edges) bs
  buckets_from edges bs = []

  unfoldable pub calibration_error : ℕ → List (ReliabilityBucket F) → F → F
  calibration_error total [] acc = acc
  calibration_error total (b ∷ bs) acc = calibration_error total bs (
      fl.add_float acc (
        fl.mul_float (fl.ratio b.count total)
          (fl.abs_float (fl.sub_float b.accuracy b.mean_confidence))))

  -- `calibration_metrics` behind its guards.
  unfoldable pub calibrate : List (F × Bool) → ℕ → CalibrationMetrics F
  calibrate predictions bucket_count =
      let edges = edges_from (bucket_count + 1) 0 bucket_count in
      let (bins, squared) =
        fill edges bucket_count predictions (empty_bins bucket_count) fl.zero_float in
      let buckets = buckets_from edges bins in
      record {
        brier_score = fl.over squared (length predictions);
        expected_calibration_error = calibration_error (length predictions) buckets fl.zero_float;
        buckets = buckets;
        prediction_count = length predictions;
      }

  abbrev pub in_unit : F → Bool
  in_unit c = fl.leb_float fl.zero_float c && fl.leb_float c fl.one_float

  -- `calibration_metrics`
  unfoldable pub calibration_metrics : List F → List Bool → ℕ → Result (CalibrationMetrics F)
  calibration_metrics confidences correct bucket_count =
      if not (length confidences == length correct)
      then raise value_error (codes "confidences and correct must have the same length")
      else if length confidences == 0
      then raise value_error (codes "cannot evaluate an empty benchmark")
      else if ltb bucket_count 1
      then raise value_error (codes "bucket_count must be at least 1")
      else if not (all in_unit confidences)
      then raise value_error (codes "confidence out of range")
      else ok (calibrate (zip confidences correct) bucket_count)
