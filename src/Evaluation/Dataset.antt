-- ===== src/Evaluation/Dataset.antt =====
-- ai/evaluation/dataset.py: what Pydantic's validators let through.
use review_signal.Base.{
  Bool, true, false, not, ◌&&◌, Option, none, some, List, [], ◌∷◌, map, if◌then◌else◌, length, all,
  ◌==◌, Text, nat_eq, list_eq, option_eq,
}
use review_signal.Evaluation.Sentiments.{sentiment_of}
use review_signal.Evaluation.Classification.{member}

-- `GoldAspect`
pub record GoldAspect : Type 0 where
  pub category_id : Text
  pub sentiment : Text

-- `BenchmarkItem`
pub record BenchmarkItem : Type 0 where
  pub review_id : Text
  pub text : Text
  pub aspects : List GoldAspect

-- `BenchmarkDataset`, less the fields that no code reads.
pub record BenchmarkDataset : Type 0 where
  pub dataset_version : Text
  pub taxonomy_version : Option Text
  pub items : List BenchmarkItem

-- `len(xs) == len(set(xs))`
unfoldable pub distinct : List Text → Bool
distinct [] = true
distinct (t ∷ ts) = not (member t ts) && distinct ts

-- `_sentiment_is_known`
unfoldable pub sentiment_is_known : Text → Bool
unfolding sentiment_of
sentiment_is_known t = elim (sentiment_of t) [ none ↦ false | some s ↦ true ]

-- `_one_sentiment_per_category`, and the validators of the aspects.
unfoldable pub item_valid : BenchmarkItem → Bool
unfolding sentiment_is_known distinct
item_valid item =
    all (λ (a : GoldAspect). sentiment_is_known a.sentiment) item.aspects
    && distinct (map (λ (a : GoldAspect). a.category_id) item.aspects)

-- `_items_are_present_and_distinct`, and the validators of the items.
unfoldable pub dataset_valid : BenchmarkDataset → Bool
unfolding item_valid
dataset_valid d =
    all item_valid d.items
    && not (length d.items == 0)
    && distinct (map (λ (i : BenchmarkItem). i.review_id) d.items)

-- `category_ids`
unfoldable pub category_ids : BenchmarkItem → List Text
category_ids item = map (λ (a : GoldAspect). a.category_id) item.aspects

-- `sentiment_by_category`; its keys are distinct.
unfoldable pub gold_sentiment : Text → List GoldAspect → Option Text
gold_sentiment category [] = none
gold_sentiment category (a ∷ rest) =
    if a.category_id == category then some a.sentiment else gold_sentiment category rest

-- `gold_categories`
unfoldable pub gold_categories : BenchmarkDataset → List (List Text)
unfolding category_ids
gold_categories d = map category_ids d.items
