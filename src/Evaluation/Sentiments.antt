-- ===== src/Evaluation/Sentiments.antt =====
-- ai/evaluation/metrics/sentiment.py
use review_signal.Base.{
  ℕ, ◌+◌, ◌-◌, Bool, true, false, not, ◌&&◌, Option, none, some, List, [], ◌∷◌, if◌then◌else◌,
  length, ◌==◌, Text, codes, value_error, Result, ok, raise, ◌>>=◌, nat_eq, list_eq, option_eq,
}
use review_signal.Evaluation.Floats.{Floats}
use review_signal.Evaluation.Scores.{Score, prf_score, mean}
use review_signal.Evaluation.Classification.{zip}

-- `SENTIMENTS`
pub data Sentiment : Type 0 where
  positive neutral negative : Sentiment

-- A label, if it is in `SENTIMENTS`.
unfoldable pub sentiment_of : Text → Option Sentiment
sentiment_of t =
    if t == codes "positive"
    then some positive
    else if t == codes "neutral"
    then some neutral
    else if t == codes "negative"
    then some negative
    else none

abbrev pub same_sentiment : Sentiment → Sentiment → Bool
same_sentiment positive positive = true
same_sentiment neutral neutral = true
same_sentiment negative negative = true
same_sentiment a b = false

-- `confusion[gold][predicted]`
abbrev pub Confusion : Type 0
Confusion = Sentiment → Sentiment → ℕ

-- `confusion[gold][predicted] += 1`
unfoldable pub bump : Sentiment → Sentiment → Confusion → Confusion
bump gold predicted c a p =
    if same_sentiment gold a && same_sentiment predicted p then c a p + 1 else c a p

unfoldable pub confusion_of : List (Sentiment × Sentiment) → Confusion
unfolding bump
confusion_of [] = λ a p. 0
confusion_of ((gold, predicted) ∷ rest) = bump gold predicted (confusion_of rest)

-- The sum of a row, and of a column.
abbrev pub row_sum : Confusion → Sentiment → ℕ
row_sum c a = c a positive + c a neutral + c a negative

abbrev pub column_sum : Confusion → Sentiment → ℕ
column_sum c p = c positive p + c neutral p + c negative p

-- `SentimentMetrics`
pub record SentimentMetrics (F : Type 0) : Type 0 where
  pub accuracy : F
  pub macro_f1 : F
  pub per_sentiment : Sentiment → Score F
  pub confusion : Confusion
  pub pair_count : ℕ

-- The `for` over both label lists, which raises at the first unknown one.
unfoldable pub known_sentiments : List Text → Result (List Sentiment)
unfolding sentiment_of
known_sentiments [] = ok []
known_sentiments (t ∷ ts) = elim (sentiment_of t) [
  | none ↦ raise value_error (codes "unknown sentiment")
  | some s ↦ known_sentiments ts >>= λ rest. ok (s ∷ rest)
]

module _ {F : Type 0} (fl : Floats F) where
  abbrev pub sentiment_score : Confusion → Sentiment → Score F
  sentiment_score c label =
      prf_score fl (c label label) (column_sum c label - c label label)
        (row_sum c label - c label label)

  -- The list `observed`.
  abbrev pub observed : Confusion → List Sentiment → List F
  observed c [] = []
  observed c (s ∷ ss) =
      if (sentiment_score c s).support == 0
      then observed c ss
      else (sentiment_score c s).f1 ∷ observed c ss

  unfoldable pub score_sentiments : List (Sentiment × Sentiment) → SentimentMetrics F
  score_sentiments pairs =
      let c = confusion_of pairs in
      record {
        accuracy =
            fl.ratio (c positive positive + c neutral neutral + c negative negative) (length pairs);
        macro_f1 = mean fl (observed c (positive ∷ neutral ∷ negative ∷ []));
        per_sentiment = sentiment_score c;
        confusion = c;
        pair_count = length pairs;
      }

  -- `sentiment_metrics`
  unfoldable pub sentiment_metrics : (gold predicted : List Text) → Result (SentimentMetrics F)
  sentiment_metrics gold predicted =
      if not (length gold == length predicted)
      then raise value_error (codes "gold and predicted must have the same length")
      else if length gold == 0
      then raise value_error (codes "cannot evaluate an empty benchmark")
      else (known_sentiments gold >>= λ g.
          known_sentiments predicted >>= λ p. ok (score_sentiments (zip g p)))
