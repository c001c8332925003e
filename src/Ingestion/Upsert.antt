-- ===== src/Ingestion/Upsert.antt =====
-- `ReviewRepository` of repositories/reviews.py: the idempotent upsert.
use review_signal.Base.{
  ℕ, ◌+◌, Bool, not, ◌||◌, Option, none, some, List, [], ◌∷◌, ◌++◌, if◌then◌else◌, find_first, ◌==◌,
  Text, Result, ok, err, nat_eq, list_eq, option_eq,
}
use review_signal.Ingestion.Record.{
  NormalizedReview, AnalysisStatus, pending, skipped, Review, UpsertOutcome, created, updated,
  unchanged,
}
use review_signal.Ingestion.Session.{Session, flush, with_reviews}

abbrev pub has_source_id : Text → Review → Bool
has_source_id key row = row.source_review_id == key

-- `select(Review).where(Review.source_review_id == key)`
unfoldable pub find_review : Text → List Review → Option Review
find_review key rows = find_first (has_source_id key) rows

-- A change to the object that the query returned, seen in the table.
unfoldable pub replace_review : Text → Review → List Review → List Review
replace_review key row [] = []
replace_review key row (r ∷ rs) =
    if has_source_id key r then row ∷ rs else r ∷ replace_review key row rs

-- "pending" for a review with text, "skipped" for one without.
abbrev pub initial_status : Option Text → AnalysisStatus
initial_status none = skipped
initial_status (some t) = pending

unfoldable pub new_review : Text → NormalizedReview → (id now : ℕ) → Review
new_review source review id now = record {
  id = id;
  source = source;
  source_review_id = review.source_review_id;
  rating = review.rating;
  review_text = review.review_text;
  reviewer_name = review.reviewer_name;
  created_at = review.created_at;
  updated_at = review.updated_at;
  owner_reply_text = review.owner_reply_text;
  owner_reply_at = review.owner_reply_at;
  language = review.language;
  raw_payload = review.raw_payload;
  analysis_status = initial_status review.review_text;
  inserted_at = now;
}

unfoldable pub text_changed : Review → NormalizedReview → Bool
text_changed existing review = not (existing.review_text == review.review_text)

unfoldable pub reply_changed : Review → NormalizedReview → Bool
reply_changed existing review =
    not (existing.owner_reply_text == review.owner_reply_text)
    || not (existing.owner_reply_at == review.owner_reply_at)

unfoldable pub is_changed : Review → NormalizedReview → Bool
unfolding text_changed reply_changed
is_changed existing review =
    text_changed existing review
    || reply_changed existing review
    || not (existing.rating == review.rating)
    || not (existing.updated_at == review.updated_at)
    || not (existing.reviewer_name == review.reviewer_name)

unfoldable pub updated_review : Review → NormalizedReview → Review
unfolding text_changed
updated_review existing review = record existing {
  rating = review.rating;
  review_text = review.review_text;
  owner_reply_text = review.owner_reply_text;
  owner_reply_at = review.owner_reply_at;
  updated_at = review.updated_at;
  reviewer_name = review.reviewer_name;
  raw_payload = review.raw_payload;
  analysis_status =
      if text_changed existing review
      then initial_status review.review_text
      else existing.analysis_status;
}

-- The three ways on from the query's answer.
unfoldable pub upsert_found :
    Text → NormalizedReview → Option Review → Session → UpsertOutcome × Session
upsert_found source review none s = (
  created,
  record (with_reviews (s.work.reviews ++ new_review source review s.next_id s.db_now ∷ []) s) {
    next_id = s.next_id + 1;
  },
)
upsert_found source review (some existing) s =
    if is_changed existing review
    then (
      updated,
      with_reviews
          (replace_review review.source_review_id (updated_review existing review) s.work.reviews)
          s,
    )
    else (unchanged, s)

-- `upsert`; the query flushes first.
unfoldable pub upsert : Text → NormalizedReview → Session → Result UpsertOutcome × Session
upsert source review s = elim (flush s) [
  | err e ↦ (err e, s)
  | ok _ ↦
      let (o, s') =
        upsert_found source review (find_review review.source_review_id s.work.reviews) s in
      (ok o, s')
]
