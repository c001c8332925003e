-- ===== src/Dashboard/Trends.antt =====
-- services/trends.py over repositories/trends.py.
use review_signal.Base.{
  ℕ, ◌+◌, ◌-◌, Bool, true, false, not, ◌&&◌, Option, none, some, List, [], ◌∷◌, ◌++◌, map, leb,
  if◌then◌else◌, take, keep, any, find_first, ◌==◌, Text, ℤ, sort_by, nat_eq, list_eq, option_eq,
}
use review_signal.Ingestion.Record.{Review}
use review_signal.Taxonomy.Record.{TaxonomyNode}
use review_signal.Dashboard.Reviews.{daily_trend, DayRow}
use review_signal.Dashboard.Insights.{given_or, round_row}

-- `ReviewAnalysis` and `ReviewAspect`, by the columns that the join reads.
pub record ReviewAnalysis : Type 0 where
  pub id : ℕ
  pub review_id : ℕ
  pub superseded_at : Option ℕ

pub record ReviewAspect : Type 0 where
  pub id : ℕ
  pub review_analysis_id : ℕ
  pub taxonomy_node_id : ℕ
  pub sentiment : Text

-- The tables of the join; the ids are primary keys.
pub record Tables : Type 0 where
  pub reviews : List Review
  pub analyses : List ReviewAnalysis
  pub aspects : List ReviewAspect
  pub nodes : List TaxonomyNode

-- `RATINGS_WINDOW`, `CATEGORIES_WINDOW`, `SUMMARY_WINDOW` and `TOP_N`.
abbrev pub ratings_window : ℕ
ratings_window = 2592000000000

abbrev pub categories_window : ℕ
categories_window = 2592000000000

abbrev pub summary_window : ℕ
summary_window = 604800000000

abbrev pub top_n : ℕ
top_n = 5

-- One group of `category_sentiment_counts`.
pub record CategoryCount : Type 0 where
  pub category_id : ℕ
  pub category_name : Text
  pub sentiment : Text
  pub mention_count : ℕ

abbrev pub is_current : Option ℕ → Bool
is_current none = true
is_current (some t) = false

abbrev pub is_wanted : Option Text → Text → Bool
is_wanted none t = true
is_wanted (some sentiment) t = t == sentiment

abbrev pub is_wanted_id : Option ℕ → ℕ → Bool
is_wanted_id none n = true
is_wanted_id (some category_id) n = n == category_id

-- The join and the conditions for one aspect: the node that it counts for.
unfoldable pub counted_node :
    Tables → (start_date end_date : ℕ) → Option Text → Option ℕ → ReviewAspect → Option TaxonomyNode
counted_node tables start_date end_date sentiment category_id aspect =
    elim (find_first (λ (a : ReviewAnalysis). a.id == aspect.review_analysis_id) tables.analyses) [
      | none ↦ none
      | some analysis ↦
          elim (find_first (λ (r : Review). r.id == analysis.review_id) tables.reviews) [
            | none ↦ none
            | some review ↦
                elim (find_first (λ (n : TaxonomyNode). n.id == aspect.taxonomy_node_id)
                  tables.nodes) [
                    | none ↦ none
                    | some node ↦
                        if is_current analysis.superseded_at
                          && leb start_date review.created_at
                          && leb review.created_at end_date
                          && is_wanted sentiment aspect.sentiment
                          && is_wanted_id category_id node.id
                        then some node
                        else none
                  ]
          ]
    ]

-- One more mention of a node and a sentiment.
unfoldable pub count_mention : TaxonomyNode → Text → List CategoryCount → List CategoryCount
count_mention node sentiment [] =
    record {
      category_id = node.id;
      category_name = node.name;
      sentiment = sentiment;
      mention_count = 1;
    }
    ∷ []
count_mention node sentiment (row ∷ rest) =
    let behind = count_mention node sentiment rest in
    if row.category_id == node.id && row.sentiment == sentiment
    then record row { mention_count = row.mention_count + 1 } ∷ rest
    else row ∷ behind

unfoldable pub count_aspects :
    (ReviewAspect → Option TaxonomyNode) → List ReviewAspect → List CategoryCount
unfolding count_mention
count_aspects node_of [] = []
count_aspects node_of (aspect ∷ rest) = elim (node_of aspect) [
  | none ↦ count_aspects node_of rest
  | some node ↦ count_mention node aspect.sentiment (count_aspects node_of rest)
]

-- `category_sentiment_counts`; the query leaves the order of its groups open.
unfoldable pub category_sentiment_counts :
    Tables → (start_date end_date : ℕ) → Option Text → Option ℕ → List CategoryCount
unfolding counted_node count_aspects
category_sentiment_counts tables start_date end_date sentiment category_id =
    count_aspects (counted_node tables start_date end_date sentiment category_id) tables.aspects

-- `CategoryMovement`
pub record CategoryMovement : Type 0 where
  pub category_id : ℕ
  pub category_name : Text
  pub sentiment : Text
  pub current_count : ℕ
  pub previous_count : ℕ
  pub delta : ℤ

-- A difference of two counts, and how two of them compare.
abbrev pub minus : ℕ → ℕ → ℤ
minus n m = if leb m n then ℤ.pos (n - m) else ℤ.negsuc (m - n - 1)

abbrev pub int_le : ℤ → ℤ → Bool
int_le (ℤ.pos n) (ℤ.pos m) = leb n m
int_le (ℤ.pos n) (ℤ.negsuc m) = false
int_le (ℤ.negsuc n) (ℤ.pos m) = true
int_le (ℤ.negsuc n) (ℤ.negsuc m) = leb m n

abbrev pub Key : Type 0
Key = ℕ × Text

abbrev pub has_key : Key → CategoryCount → Bool
has_key (category_id, sentiment) row = row.category_id == category_id && row.sentiment == sentiment

abbrev pub mentions_of : Option CategoryCount → ℕ
mentions_of none = 0
mentions_of (some row) = row.mention_count

-- `current.get(key)` or `previous.get(key)`
abbrev pub row_of : Key → List CategoryCount → Option CategoryCount
row_of key rows = find_first (has_key key) rows

abbrev pub name_in : Option CategoryCount → Option CategoryCount → Text
name_in (some row) other = row.category_name
name_in none (some row) = row.category_name
name_in none none = []

-- The body of the loop over `current.keys() | previous.keys()`.
unfoldable pub movement : (current previous : List CategoryCount) → Key → CategoryMovement
movement current previous key =
    let current_count = mentions_of (row_of key current) in
    let previous_count = mentions_of (row_of key previous) in
    record {
      category_id = key.0;
      category_name = name_in (row_of key current) (row_of key previous);
      sentiment = key.1;
      current_count = current_count;
      previous_count = previous_count;
      delta = minus current_count previous_count;
    }

abbrev pub key_of : CategoryCount → Key
key_of row = (row.category_id, row.sentiment)

-- The union of both dicts' keys, in some order.
unfoldable pub union_keys : (current previous : List CategoryCount) → List Key
union_keys current previous =
    map key_of current
    ++ map key_of
        (keep (λ (row : CategoryCount). not (any (has_key (key_of row)) current)) previous)

-- The keys of both sorts, and their conditions.
abbrev pub larger_first : CategoryMovement → CategoryMovement → Bool
larger_first m n = int_le n.delta m.delta

abbrev pub smaller_first : CategoryMovement → CategoryMovement → Bool
smaller_first m n = int_le m.delta n.delta

abbrev pub is_increase : CategoryMovement → Bool
is_increase m = not (int_le m.delta (ℤ.pos 0))

abbrev pub is_decrease : CategoryMovement → Bool
is_decrease m = not (int_le (ℤ.pos 0) m.delta)

unfoldable pub biggest_increases : List CategoryMovement → List CategoryMovement
unfolding sort_by
biggest_increases movements = take top_n (sort_by larger_first (keep is_increase movements))

unfoldable pub biggest_decreases : List CategoryMovement → List CategoryMovement
unfolding sort_by
biggest_decreases movements = take top_n (sort_by smaller_first (keep is_decrease movements))

-- `TrendsSummaryPayload`
pub record TrendsSummaryPayload : Type 0 where
  pub current_start : ℕ
  pub current_end : ℕ
  pub previous_start : ℕ
  pub previous_end : ℕ
  pub biggest_increases : List CategoryMovement
  pub biggest_decreases : List CategoryMovement

-- `get_summary`
unfoldable pub get_summary : (now : ℕ) → Tables → TrendsSummaryPayload
unfolding category_sentiment_counts union_keys movement biggest_increases biggest_decreases
get_summary now tables =
    let current_start = now - summary_window in
    let previous_start = current_start - summary_window in
    let current = category_sentiment_counts tables current_start now none none in
    let previous = category_sentiment_counts tables previous_start current_start none none in
    let movements = map (movement current previous) (union_keys current previous) in
    record {
      current_start = current_start;
      current_end = now;
      previous_start = previous_start;
      previous_end = current_start;
      biggest_increases = biggest_increases movements;
      biggest_decreases = biggest_decreases movements;
    }

-- `CategoryTrendsPayload` and `get_categories`
pub record CategoryTrendsPayload : Type 0 where
  pub start_date : ℕ
  pub end_date : ℕ
  pub categories : List CategoryCount

unfoldable pub get_categories :
    (start_date end_date : Option ℕ)
    → Option Text
    → Option ℕ
    → (now : ℕ) → Tables
    → CategoryTrendsPayload
unfolding category_sentiment_counts
get_categories start_date end_date sentiment category_id now tables =
    let resolved_end = given_or end_date now in
    let resolved_start = given_or start_date (resolved_end - categories_window) in
    record {
      start_date = resolved_start;
      end_date = resolved_end;
      categories =
          category_sentiment_counts tables resolved_start resolved_end sentiment category_id;
    }

-- `RatingHistoryPayload` and `get_ratings`
pub record RatingHistoryPayload (Average : Type 0) : Type 0 where
  pub start_date : ℕ
  pub end_date : ℕ
  pub points : List (DayRow Average)

unfoldable pub get_ratings :
    {Average : Type 0}
    → (List ℕ → Average)
    → (truncate_day : ℕ → ℕ) → (round2 : Average → Average) → (start_date end_date : Option ℕ)
    → (now : ℕ) → List Review
    → RatingHistoryPayload Average
unfolding daily_trend
get_ratings average truncate_day round2 start_date end_date now reviews =
    let resolved_end = given_or end_date now in
    let resolved_start = given_or start_date (resolved_end - ratings_window) in
    record {
      start_date = resolved_start;
      end_date = resolved_end;
      points =
          map (round_row average truncate_day round2)
            (daily_trend average truncate_day resolved_start resolved_end reviews);
    }
