-- ===== src/Evaluation/Totals.antt =====
-- The counts in the metrics account for every pair and every prediction.
use review_signal.Base.{
  ℕ, zero, suc, ◌+◌, ◌≤◌, ◌<◌, ◌≡◌, refl, ap, ◌∙◌, subst, Bool, true, false, not, Option, none,
  some, List, [], ◌∷◌, arith, ltb, if◌then◌else◌, length, all, ◌==◌, eq_iff, Text, ExceptionClass,
  value_error, Result, ok, raise, >>=-eq-ok, nat_eq, list_eq, option_eq,
}
use review_signal.Evaluation.Floats.{Floats}
use review_signal.Evaluation.Classification.{zip}
use review_signal.Evaluation.Sentiments.{
  sentiment_of, Sentiment, Confusion, bump, confusion_of, row_sum, known_sentiments,
  score_sentiments, SentimentMetrics, sentiment_metrics, positive, neutral, negative,
}
use review_signal.Evaluation.Calibration.{
  ReliabilityBucket, CalibrationMetrics, Bin, edges_from, bucket_index, tally_at, empty_bins, fill,
  buckets_from, calibrate, in_unit, calibration_metrics,
}

abbrev pub total : Confusion → ℕ
total c = row_sum c positive + row_sum c neutral + row_sum c negative

total-bump : (g p : Sentiment) (c : Confusion) → total (bump g p c) ≡ total c + 1
unfolding bump
total-bump positive positive c = omega arith
total-bump positive neutral c = omega arith
total-bump positive negative c = omega arith
total-bump neutral positive c = omega arith
total-bump neutral neutral c = omega arith
total-bump neutral negative c = omega arith
total-bump negative positive c = omega arith
total-bump negative neutral c = omega arith
total-bump negative negative c = omega arith

total-confusion_of :
    (pairs : List (Sentiment × Sentiment)) → total (confusion_of pairs) ≡ length pairs
unfolding confusion_of
total-confusion_of [] = omega arith
total-confusion_of ((g, p) ∷ rest) =
    omega (arith, total-bump g p (confusion_of rest), total-confusion_of rest)

length-zip :
    {A B : Type 0} (xs : List A) (ys : List B)
    → length xs ≡ length ys
    → length (zip xs ys) ≡ length xs
length-zip [] ys e = omega arith
length-zip (x ∷ xs) [] e = omega (arith, e)
length-zip (x ∷ xs) (y ∷ ys) e = omega (arith, length-zip xs ys (omega (arith, e)))

length-known :
    (ts : List Text) (ss : List Sentiment) → known_sentiments ts ≡ ok ss → length ss ≡ length ts
unfolding known_sentiments
length-known [] ss e = ground arith
length-known (t ∷ ts) ss e = go (sentiment_of t) refl (length-known ts)
  where
    go :
        (o : Option Sentiment)
        → sentiment_of t ≡ o
        → ((ss' : List Sentiment) → known_sentiments ts ≡ ok ss' → length ss' ≡ length ts)
        → length ss ≡ suc (length ts)
    go none h ih = cc (rw (h, known_sentiments) at e)
    go (some x) h ih =
        let (rest, e₁, e₂) = >>=-eq-ok (known_sentiments ts) _ (rw (h, known_sentiments) at e) in
        let same : x ∷ rest ≡ ss = cc e₂ in omega (arith, ih rest e₁, ap length same)

-- A guard that did not raise.
passed :
    {A : Type 0} (b : Bool) (c : ExceptionClass) (message : Text) (r : Result A) (a : A)
    → (if b then raise c message else r) ≡ ok a
    → (b ≡ false) × (r ≡ ok a)
passed true c message r a e = cc e
passed false c message r a e = (refl, e)

same_length :
    {A B : Type 0} (xs : List A) (ys : List B)
    → not (length xs == length ys) ≡ false
    → length xs ≡ length ys
same_length xs ys e = ground (arith, eq_iff (length xs) (length ys))

module _ {F : Type 0} (fl : Floats F) where
  abbrev pub bin_total : List (Bin F) → ℕ
  bin_total [] = 0
  bin_total (b ∷ bs) = b.bin_count + bin_total bs

  abbrev pub bucket_total : List (ReliabilityBucket F) → ℕ
  bucket_total [] = 0
  bucket_total (b ∷ bs) = b.count + bucket_total bs

  tally_at-lem :
      (i : ℕ) (c : F) (correct : Bool) (bins : List (Bin F))
      → i < length bins
      → (bin_total (tally_at fl i c correct bins) ≡ bin_total bins + 1)
        × (length (tally_at fl i c correct bins) ≡ length bins)
  unfolding tally_at
  tally_at-lem i c correct [] lt = absurd (omega (arith, lt))
  tally_at-lem zero c correct (b ∷ bs) lt = (omega arith, omega arith)
  tally_at-lem (suc i) c correct (b ∷ bs) lt =
      let ih = tally_at-lem i c correct bs (omega (arith, lt)) in
      (omega (arith, ih.0), omega (arith, ih.1))

  fill-lem :
      (edges : List F) (n : ℕ) (predictions : List (F × Bool)) (bins : List (Bin F)) (squared : F)
      → 1 ≤ n
      → length bins ≡ n
      → (bin_total (fill fl edges n predictions bins squared).0
          ≡ bin_total bins + length predictions)
        × (length (fill fl edges n predictions bins squared).0 ≡ n)
  unfolding fill bucket_index
  fill-lem edges n [] bins squared le e = (omega arith, e)
  fill-lem edges n ((c, correct) ∷ rest) bins squared le e =
      let i = bucket_index fl edges n c in
      let step = tally_at-lem i c correct bins (omega (arith, le, e)) in
      let ih = fill-lem edges n rest (tally_at fl i c correct bins) _ le (step.1 ∙ e) in
      (omega (arith, ih.0, step.0), ih.1)

  length-edges_from : (n i k : ℕ) → length (edges_from fl n i k) ≡ n
  unfolding edges_from
  length-edges_from zero i k = refl
  length-edges_from (suc n) i k = ap suc (length-edges_from n (i + 1) k)

  buckets_from-lem :
      (edges : List F) (bins : List (Bin F))
      → length edges ≡ length bins + 1
      → (bucket_total (buckets_from fl edges bins) ≡ bin_total bins)
        × (length (buckets_from fl edges bins) ≡ length bins)
  unfolding buckets_from
  buckets_from-lem [] [] e = (refl, refl)
  buckets_from-lem (a ∷ []) [] e = (refl, refl)
  buckets_from-lem (a ∷ b ∷ es) [] e = (refl, refl)
  buckets_from-lem [] (b ∷ bs) e = absurd (omega (arith, e))
  buckets_from-lem (a ∷ []) (b ∷ bs) e = absurd (omega (arith, e))
  buckets_from-lem (a ∷ c ∷ es) (b ∷ bs) e =
      let ih = buckets_from-lem (c ∷ es) bs (omega (arith, e)) in
      (omega (arith, ih.0), omega (arith, ih.1))

  bin_total-empty : (n : ℕ) → (bin_total (empty_bins fl n) ≡ 0) × (length (empty_bins fl n) ≡ n)
  bin_total-empty zero = (refl, refl)
  bin_total-empty (suc n) = (omega (arith, (bin_total-empty n).0), ap suc (bin_total-empty n).1)

  calibrate-Accounts :
      (predictions : List (F × Bool)) (n : ℕ)
      → 1 ≤ n
      → let m = calibrate fl predictions n in
        (bucket_total m.buckets ≡ length predictions) × (length m.buckets ≡ n)
  unfolding calibrate
  calibrate-Accounts predictions n le =
      let edges = edges_from fl (n + 1) 0 n in
      let start = bin_total-empty n in
      let filled = fill-lem edges n predictions (empty_bins fl n) fl.zero_float le start.1 in
      let bins = (fill fl edges n predictions (empty_bins fl n) fl.zero_float).0 in
      let shown =
        buckets_from-lem edges bins (omega (arith, length-edges_from (n + 1) 0 n, filled.1)) in
      (omega (arith, shown.0, filled.0, start.0), omega (arith, shown.1, filled.1))

  -- Every prediction of a calibration that answers lands in exactly one bucket: the counts of the
  -- buckets sum to `prediction_count`, which is the number of confidences, and there are as many
  -- buckets as were asked for.
  pub calibration_metrics-Accounts :
      (confidences : List F) (correct : List Bool) (n : ℕ) (m : CalibrationMetrics F)
      → calibration_metrics fl confidences correct n ≡ ok m
      → (bucket_total m.buckets ≡ m.prediction_count)
        × (m.prediction_count ≡ length confidences)
        × (length m.buckets ≡ n)
  unfolding calibration_metrics calibrate
  calibration_metrics-Accounts confidences correct n m e =
      let (g₁, e₁) = passed (not (length confidences == length correct)) value_error _ _ m e in
      let (g₂, e₂) = passed (length confidences == 0) value_error _ _ m e₁ in
      let (g₃, e₃) = passed (ltb n 1) value_error _ _ m e₂ in
      let (g₄, e₄) = passed (not (all (in_unit fl) confidences)) value_error _ _ m e₃ in
      answered e₄ (ground (arith, g₃)) (same_length confidences correct g₁)
    where
      answered :
          ◌≡◌ {A = Result (CalibrationMetrics F)}
            (ok (calibrate fl (zip confidences correct) n))
            (ok m)
          → 1 ≤ n
          → length confidences ≡ length correct
          → (bucket_total m.buckets ≡ m.prediction_count)
            × (m.prediction_count ≡ length confidences)
            × (length m.buckets ≡ n)
      answered h le same =
          let it : calibrate fl (zip confidences correct) n ≡ m = cc h in
          let all_in = calibrate-Accounts (zip confidences correct) n le in
          let zipped = length-zip confidences correct same in
          subst
            (λ (x : CalibrationMetrics F).
              (bucket_total x.buckets ≡ x.prediction_count)
              × (x.prediction_count ≡ length confidences)
              × (length x.buckets ≡ n))
            it (all_in.0, zipped, all_in.1)

  -- Where sentiment scoring answers, its confusion matrix counts every pair exactly once: its entries
  -- sum to `pair_count`, which is the number of gold labels.
  sentiment_metrics-Accounts :
      (gold predicted : List Text) (m : SentimentMetrics F)
      → sentiment_metrics fl gold predicted ≡ ok m
      → (total m.confusion ≡ m.pair_count) × (m.pair_count ≡ length gold)
  unfolding sentiment_metrics score_sentiments
  sentiment_metrics-Accounts gold predicted m e =
      let (g₁, e₁) = passed _ _ _ _ m e in
      let (g₂, e₂) = passed _ _ _ _ m e₁ in
      let (g, h₁, e₃) = >>=-eq-ok (known_sentiments gold) _ e₂ in
      let (p, h₂, e₄) = >>=-eq-ok (known_sentiments predicted) _ e₃ in
      answered g p e₄ (length-known gold g h₁) (length-known predicted p h₂)
        (same_length gold predicted g₁)
    where
      answered :
          (g p : List Sentiment)
          → ◌≡◌ {A = Result (SentimentMetrics F)} (ok (score_sentiments fl (zip g p))) (ok m)
          → length g ≡ length gold
          → length p ≡ length predicted
          → length gold ≡ length predicted
          → (total m.confusion ≡ m.pair_count) × (m.pair_count ≡ length gold)
      answered g p h l₁ l₂ l₃ =
          let it : score_sentiments fl (zip g p) ≡ m = cc h in
          subst
            (λ (x : SentimentMetrics F).
              (total x.confusion ≡ x.pair_count) × (x.pair_count ≡ length gold))
            it (total-confusion_of (zip g p), length-zip g p (omega (arith, l₁, l₂, l₃)) ∙ l₁)
