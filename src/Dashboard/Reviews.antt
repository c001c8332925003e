-- ===== src/Dashboard/Reviews.antt =====
-- `ReviewReader` of repositories/reviews.py with services/reviews.py and services/overview.py.
-- PostgreSQL's `ILIKE`, its `date_trunc` and its `avg` are parameters.
use review_signal.Base.{
  ℕ, zero, suc, ◌-◌, ◌*◌, Bool, true, false, not, ◌&&◌, ◌||◌, Option, none, some, List, [], ◌∷◌,
  ◌++◌, map, ltb, leb, if◌then◌else◌, length, take, drop, keep, find_first, ◌==◌, Text, codes,
  sort_by, validation_failed_error, resource_not_found_error, Result, ok, raise, nat_eq, list_eq,
  option_eq,
}
use review_signal.Ingestion.Record.{Review, AnalysisStatus}

-- The query parameters of `GET /reviews`.
pub record ReviewQuery : Type 0 where
  pub q : Option Text
  pub rating : Option ℕ
  pub start_date : Option ℕ
  pub end_date : Option ℕ

-- `ReviewSummary`
pub record ReviewSummary : Type 0 where
  pub id : ℕ
  pub rating : ℕ
  pub review_text : Option Text
  pub reviewer_name : Option Text
  pub created_at : ℕ
  pub analysis_status : AnalysisStatus

abbrev pub summary_of : Review → ReviewSummary
summary_of r = record {
  id = r.id;
  rating = r.rating;
  review_text = r.review_text;
  reviewer_name = r.reviewer_name;
  created_at = r.created_at;
  analysis_status = r.analysis_status;
}

-- `ReviewListPayload`
pub record ReviewListPayload : Type 0 where
  pub summaries : List ReviewSummary
  pub page : ℕ
  pub page_size : ℕ
  pub total : ℕ

-- `created_at >= start_date` and `created_at <= end_date`, where they are given.
abbrev pub not_before : Option ℕ → ℕ → Bool
not_before none created_at = true
not_before (some start_date) created_at = leb start_date created_at

abbrev pub not_after : Option ℕ → ℕ → Bool
not_after none created_at = true
not_after (some end_date) created_at = leb created_at end_date

abbrev pub rated : Option ℕ → ℕ → Bool
rated none stars = true
rated (some rating) stars = stars == rating

-- The order of the page's query: by time and then by id, both falling.
abbrev pub newer_review : Review → Review → Bool
newer_review r s = ltb s.created_at r.created_at || (r.created_at == s.created_at && leb s.id r.id)

module _ (ilike : (pattern value : Text) → Bool) where
  -- `review_text.ilike(f"%{q}%")`, where `q` is not empty; the NULL of a missing text is not true.
  abbrev pub mentions : Option Text → Option Text → Bool
  mentions none review_text = true
  mentions (some []) review_text = true
  mentions (some (c ∷ cs)) none = false
  mentions (some (c ∷ cs)) (some t) = ilike (b'%' ∷ (c ∷ cs) ++ b'%' ∷ []) t

  -- The conditions that both statements of `list_page` carry.
  unfoldable pub matches : ReviewQuery → Review → Bool
  matches query r =
      mentions query.q r.review_text
      && rated query.rating r.rating
      && not_before query.start_date r.created_at
      && not_after query.end_date r.created_at

  -- `list_page`: the rows of one page, and the count without paging.
  unfoldable pub list_page : (page page_size : ℕ) → ReviewQuery → List Review → List Review × ℕ
  unfolding matches sort_by
  list_page page page_size query rows =
      let found = keep (matches query) rows in
      (take page_size (drop ((page - 1) * page_size) (sort_by newer_review found)), length found)

  -- `list_reviews`
  unfoldable pub list_reviews :
      (page page_size : ℕ) → ReviewQuery → List Review → Result ReviewListPayload
  unfolding list_page
  list_reviews page page_size query rows =
      let (on_page, total) = list_page page page_size query rows in
      let answer : Result ReviewListPayload = ok (record {
        summaries = map summary_of on_page;
        page = page;
        page_size = page_size;
        total = total;
      }) in
      elim query.start_date [
        | none ↦ answer
        | some start_date ↦ elim query.end_date [
          | none ↦ answer
          | some end_date ↦
              if ltb end_date start_date
              then raise validation_failed_error (codes "start_date must not be after end_date.")
              else answer
        ]
      ]

-- `ReviewDetail`, whose `analysis` is always null.
pub record ReviewDetail : Type 0 where
  pub id : ℕ
  pub source : Text
  pub rating : ℕ
  pub review_text : Option Text
  pub reviewer_name : Option Text
  pub created_at : ℕ
  pub updated_at : ℕ
  pub owner_reply_text : Option Text
  pub owner_reply_at : Option ℕ
  pub analysis_status : AnalysisStatus

-- `get_review`
unfoldable pub get_review : ℕ → List Review → Result ReviewDetail
get_review key rows = elim (find_first (λ (r : Review). r.id == key) rows) [
  | none ↦ raise resource_not_found_error (codes "Review not found.")
  | some r ↦ ok (record {
    id = r.id;
    source = r.source;
    rating = r.rating;
    review_text = r.review_text;
    reviewer_name = r.reviewer_name;
    created_at = r.created_at;
    updated_at = r.updated_at;
    owner_reply_text = r.owner_reply_text;
    owner_reply_at = r.owner_reply_at;
    analysis_status = r.analysis_status;
  })
]

-- The window of `count_and_average` and `daily_trend`.
abbrev pub created_within : (start_date end_date : ℕ) → Review → Bool
created_within start_date end_date r = leb start_date r.created_at && leb r.created_at end_date

-- One row of `daily_trend`.
pub record DayRow (Average : Type 0) : Type 0 where
  pub day : ℕ
  pub review_count : ℕ
  pub average_rating : Average

-- A row for each group: the first key, and the rows behind it that have another one.
unfoldable pub group_days : (key_of : Review → ℕ) → ℕ → List Review → List (ℕ × List Review)
group_days key_of fuel [] = []
group_days key_of zero (r ∷ rest) = []
group_days key_of (suc fuel) (r ∷ rest) =
    (key_of r, r ∷ keep (λ s. key_of s == key_of r) rest)
    ∷ group_days key_of fuel (keep (λ s. not (key_of s == key_of r)) rest)

abbrev pub by_day : ℕ × List Review → ℕ × List Review → Bool
by_day (d, rs) (e, ss) = leb d e

module _ {Average : Type 0} (average : List ℕ → Average) (truncate_day : ℕ → ℕ) where
  abbrev pub ratings_of : List Review → List ℕ
  ratings_of rows = map (λ (r : Review). r.rating) rows

  -- `count_and_average`; `none` stands for the NULL of no rows.
  unfoldable pub count_and_average : (start_date end_date : ℕ) → List Review → ℕ × Option Average
  count_and_average start_date end_date rows =
      let found = keep (created_within start_date end_date) rows in
      (length found, elim found [ [] ↦ none | r ∷ rs ↦ some (average (ratings_of (r ∷ rs))) ])

  abbrev pub day_row : ℕ × List Review → DayRow Average
  day_row (day, rows) = record {
    day = day;
    review_count = length rows;
    average_rating = average (ratings_of rows);
  }

  -- `daily_trend`: fuel for each row covers each group.
  unfoldable pub daily_trend : (start_date end_date : ℕ) → List Review → List (DayRow Average)
  unfolding group_days sort_by
  daily_trend start_date end_date rows =
      let found = keep (created_within start_date end_date) rows in
      map day_row (
        sort_by by_day
          (group_days (λ (r : Review). truncate_day r.created_at) (length found) found))

-- `ReviewRepository.existing_source_ids`
unfoldable pub existing_source_ids : Text → List Review → List Text
existing_source_ids source rows =
    map (λ (r : Review). r.source_review_id) (keep (λ (r : Review). r.source == source) rows)
