-- ===== src/Evaluation/Classification.antt =====
-- ai/evaluation/metrics/classification.py. A label set is a list, of which only membership is read.
use review_signal.Base.{
  ℕ, ◌+◌, Bool, true, false, not, List, [], ◌∷◌, map, ltb, if◌then◌else◌, length, any, ◌==◌, Text,
  codes, value_error, Result, ok, raise, nat_eq, list_eq, option_eq,
}
use review_signal.Evaluation.Floats.{Floats}
use review_signal.Evaluation.Scores.{Score, prf_score, mean}

abbrev pub member : Text → List Text → Bool
member t labels = any (λ l. l == t) labels

-- `<=` of strings, by code points.
unfoldable pub leb_text : Text → Text → Bool
leb_text [] t = true
leb_text (c ∷ s) [] = false
leb_text (c ∷ s) (d ∷ t) = if c == d then leb_text s t else ltb c d

unfoldable pub insert_label : Text → List Text → List Text
unfolding leb_text
insert_label t [] = t ∷ []
insert_label t (l ∷ ls) =
    let rest = insert_label t ls in
    if t == l then l ∷ ls else if leb_text t l then t ∷ l ∷ ls else l ∷ rest

-- `sorted` of the set of all labels that occur in a list of label sets.
abbrev pub insert_all : List Text → List Text → List Text
insert_all [] acc = acc
insert_all (t ∷ ts) acc = insert_label t (insert_all ts acc)

unfoldable pub label_universe : List (List Text × List Text) → List Text
label_universe [] = []
label_universe ((gold, predicted) ∷ rest) =
    insert_all gold (insert_all predicted (label_universe rest))

-- The three counters of a label.
pub record Counts : Type 0 where
  pub true_positives : ℕ
  pub false_positives : ℕ
  pub false_negatives : ℕ

abbrev pub no_counts : Counts
no_counts = record { true_positives = 0; false_positives = 0; false_negatives = 0 }

unfoldable pub count_item : (in_gold in_predicted : Bool) → Counts → Counts
count_item true true c = record c { true_positives = c.true_positives + 1 }
count_item false true c = record c { false_positives = c.false_positives + 1 }
count_item true false c = record c { false_negatives = c.false_negatives + 1 }
count_item false false c = c

-- The inner loop, over the items, from the last to the first.
unfoldable pub label_counts : Text → List (List Text × List Text) → Counts
unfolding count_item
label_counts label [] = no_counts
label_counts label ((gold, predicted) ∷ rest) =
    count_item (member label gold) (member label predicted) (label_counts label rest)

abbrev pub add_counts : Counts → Counts → Counts
add_counts a b = record {
  true_positives = a.true_positives + b.true_positives;
  false_positives = a.false_positives + b.false_positives;
  false_negatives = a.false_negatives + b.false_negatives;
}

-- The micro counters, over all labels.
unfoldable pub micro_counts : List Text → List (List Text × List Text) → Counts
micro_counts [] pairs = no_counts
micro_counts (l ∷ ls) pairs = add_counts (label_counts l pairs) (micro_counts ls pairs)

-- `ClassificationMetrics`
pub record ClassificationMetrics (F : Type 0) : Type 0 where
  pub micro : Score F
  pub macro : Score F
  pub per_category : List (Text × Score F)
  pub item_count : ℕ
  pub label_count : ℕ

-- `zip(…, strict=True)` of lists of equal length.
abbrev pub zip {ℓ} : {A B : Type ℓ} → List A → List B → List (A × B)
zip [] ys = []
zip (x ∷ xs) [] = []
zip (x ∷ xs) (y ∷ ys) = (x, y) ∷ zip xs ys

module _ {F : Type 0} (fl : Floats F) where
  abbrev pub score_of : Counts → Score F
  score_of c = prf_score fl c.true_positives c.false_positives c.false_negatives

  abbrev pub category_scores : List Text → List (List Text × List Text) → List (Text × Score F)
  category_scores labels pairs = map (λ l. (l, score_of (label_counts l pairs))) labels

  -- `classification_metrics` behind its two guards.
  unfoldable pub classify : List (List Text × List Text) → ClassificationMetrics F
  classify pairs =
      let labels = label_universe pairs in
      let per_category = category_scores labels pairs in
      let micro = score_of (micro_counts labels pairs) in
      record {
        micro = micro;
        macro = record {
          precision = mean fl (map (λ (p : Text × Score F). p.1.precision) per_category);
          recall = mean fl (map (λ (p : Text × Score F). p.1.recall) per_category);
          f1 = mean fl (map (λ (p : Text × Score F). p.1.f1) per_category);
          support = micro.support;
        };
        per_category = per_category;
        item_count = length pairs;
        label_count = length labels;
      }

  -- `classification_metrics`
  unfoldable pub classification_metrics :
      (gold predicted : List (List Text)) → Result (ClassificationMetrics F)
  classification_metrics gold predicted =
      if not (length gold == length predicted)
      then raise value_error (codes "gold and predicted must have the same length")
      else if length gold == 0
      then raise value_error (codes "cannot evaluate an empty benchmark")
      else ok (classify (zip gold predicted))
