-- ===== src/Dashboard/Insights.antt =====
-- services/insights.py and services/overview.py over repositories/insights.py.
use review_signal.Base.{
  ℕ, ◌-◌, Bool, true, false, ◌&&◌, Option, none, some, List, map, ltb, leb, if◌then◌else◌, keep,
  find_first, ◌==◌, Text, codes, sort_by, validation_failed_error, resource_not_found_error, Result,
  ok, raise, nat_eq, list_eq, option_eq,
}
use review_signal.Ingestion.Record.{Review}
use review_signal.Dashboard.Reviews.{count_and_average, daily_trend, DayRow, not_before, not_after}

-- `INSIGHT_STATUSES`
pub data InsightStatus : Type 0 where
  fresh monitoring resolved : InsightStatus

-- `Insight`, by the columns that are read.
pub record Insight : Type 0 where
  pub id : ℕ
  pub taxonomy_node_id : Option ℕ
  pub title : Text
  pub summary : Text
  pub severity : Text
  pub evidence_summary : Text
  pub status : InsightStatus
  pub created_at : ℕ
  pub updated_at : ℕ
  pub resolved_at : Option ℕ

-- `INSIGHT_ACTION_STATUSES`
pub data ActionStatus : Type 0 where
  planned in_progress completed cancelled : ActionStatus

-- `InsightAction`, which its payload repeats.
pub record InsightAction : Type 0 where
  pub id : ℕ
  pub insight_id : ℕ
  pub action_text : Text
  pub action_date : Option ℕ
  pub note_text : Option Text
  pub status : ActionStatus
  pub created_at : ℕ
  pub updated_at : ℕ

-- `_ACTIVE_STATUSES`
abbrev pub is_active : InsightStatus → Bool
is_active fresh = true
is_active monitoring = true
is_active resolved = false

abbrev pub newer_insight : Insight → Insight → Bool
newer_insight i j = leb j.created_at i.created_at

-- `list_active`
unfoldable pub list_active : List Insight → List Insight
unfolding sort_by
list_active rows = sort_by newer_insight (keep (λ (i : Insight). is_active i.status) rows)

-- The parameters of `list_filtered`; a status or severity of the caller is compared as a text.
pub record InsightQuery : Type 0 where
  pub status : Option Text
  pub severity : Option Text
  pub category_id : Option ℕ
  pub start_date : Option ℕ
  pub end_date : Option ℕ

abbrev pub status_name : InsightStatus → Text
status_name fresh = codes "new"
status_name monitoring = codes "monitoring"
status_name resolved = codes "resolved"

abbrev pub same_text : Option Text → Text → Bool
same_text none t = true
same_text (some wanted) t = t == wanted

abbrev pub same_category : Option ℕ → Option ℕ → Bool
same_category none held = true
same_category (some wanted) held = held == some wanted

unfoldable pub insight_matches : InsightQuery → Insight → Bool
insight_matches query i =
    same_text query.status (status_name i.status)
    && same_text query.severity i.severity
    && same_category query.category_id i.taxonomy_node_id
    && not_before query.start_date i.created_at
    && not_after query.end_date i.created_at

-- `list_filtered`
unfoldable pub list_filtered : InsightQuery → List Insight → List Insight
unfolding sort_by insight_matches
list_filtered query rows = sort_by newer_insight (keep (insight_matches query) rows)

-- `InsightListItem`, and `InsightSummary` alike.
pub record InsightListItem : Type 0 where
  pub id : ℕ
  pub title : Text
  pub severity : Text
  pub status : InsightStatus
  pub created_at : ℕ

abbrev pub list_item : Insight → InsightListItem
list_item i = record {
  id = i.id;
  title = i.title;
  severity = i.severity;
  status = i.status;
  created_at = i.created_at;
}

-- `list_insights`
abbrev pub list_insights : InsightQuery → List Insight → List InsightListItem
list_insights query rows = map list_item (list_filtered query rows)

-- `list_actions`, oldest first.
abbrev pub older_action : InsightAction → InsightAction → Bool
older_action a b = leb a.created_at b.created_at

unfoldable pub list_actions : ℕ → List InsightAction → List InsightAction
unfolding sort_by
list_actions insight_id actions =
    sort_by older_action (keep (λ (a : InsightAction). a.insight_id == insight_id) actions)

-- `InsightDetail`; no review is related and no impact is computed.
pub record InsightDetail : Type 0 where
  pub insight : Insight
  pub actions : List InsightAction

-- `get_insight`
unfoldable pub get_insight : ℕ → List Insight → List InsightAction → Result InsightDetail
unfolding list_actions
get_insight insight_id rows actions = elim (find_first (λ (i : Insight). i.id == insight_id) rows) [
  | none ↦ raise resource_not_found_error (codes "Insight not found.")
  | some insight ↦ ok (record { insight = insight; actions = list_actions insight_id actions })
]

-- `DEFAULT_WINDOW`
abbrev pub default_window : ℕ
default_window = 604800000000

-- `OverviewPayload`, whose themes are empty.
pub record OverviewPayload (Average : Type 0) : Type 0 where
  pub start_date : ℕ
  pub end_date : ℕ
  pub review_count : ℕ
  pub average_rating : Option Average
  pub rating_trend : List (DayRow Average)
  pub active_insights : List InsightListItem

abbrev pub given_or : Option ℕ → ℕ → ℕ
given_or none d = d
given_or (some n) d = n

-- `start_date is not None and end_date is not None and start_date > end_date`
abbrev pub is_reversed : Option ℕ → Option ℕ → Bool
is_reversed none end_date = false
is_reversed (some start_date) none = false
is_reversed (some start_date) (some end_date) = ltb end_date start_date

module _ {Average : Type 0} (average : List ℕ → Average) (truncate_day : ℕ → ℕ)
    (round2 : Average → Average) where
  abbrev pub round_row : DayRow Average → DayRow Average
  round_row row = record row { average_rating = round2 row.average_rating }

  abbrev pub round_option : Option Average → Option Average
  round_option none = none
  round_option (some a) = some (round2 a)

  -- `get_overview`
  unfoldable pub get_overview :
      (start_date end_date : Option ℕ)
      → (now : ℕ) → List Review
      → List Insight
      → Result (OverviewPayload Average)
  unfolding count_and_average daily_trend list_active
  get_overview start_date end_date now reviews insights =
      let resolved_end = given_or end_date now in
      let resolved_start = given_or start_date (resolved_end - default_window) in
      let (review_count, average_rating) =
        count_and_average average truncate_day resolved_start resolved_end reviews in
      if is_reversed start_date end_date
      then raise validation_failed_error (codes "start_date must not be after end_date.")
      else ok (record {
        start_date = resolved_start;
        end_date = resolved_end;
        review_count = review_count;
        average_rating = round_option average_rating;
        rating_trend =
            map round_row (daily_trend average truncate_day resolved_start resolved_end reviews);
        active_insights = map list_item (list_active insights);
      })
