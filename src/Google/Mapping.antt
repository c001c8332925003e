-- ===== src/Google/Mapping.antt =====
-- integrations/google/mapping.py: one `reviews[]` entry to a `NormalizedReview`. The entry has the
-- documented shape: its text fields are strings, absent, or null (which `dict.get` does not tell
-- apart). `datetime.fromisoformat` is a parameter.
use review_signal.Base.{
  ℕ, Bool, false, not, ◌||◌, Option, none, some, [], ◌∷◌, ◌++◌, if◌then◌else◌, ◌==◌, Text, codes,
  Fields, is_space, source_fetch_error, Result, ok, raise, ◌>>=◌, nat_eq, list_eq, option_eq,
}
use review_signal.Ingestion.Record.{NormalizedReview}

-- `starRating`: a string, or some other value.
pub data StarRating : Type 0 where
  name : Text → StarRating
  other : StarRating

-- `is_anonymous` is the truth of the entry's `isAnonymous`.
pub record Reviewer : Type 0 where
  pub is_anonymous : Bool
  pub display_name : Option Text

pub record ReviewReply : Type 0 where
  pub comment : Option Text
  pub update_time : Option Text

pub record ReviewEntry : Type 0 where
  pub review_id : Option Text
  pub star_rating : Option StarRating
  pub create_time : Option Text
  pub update_time : Option Text
  pub comment : Option Text
  pub reviewer : Option Reviewer
  pub review_reply : Option ReviewReply
  pub payload : Fields

-- What `fromisoformat` reads: a time with a zone, as its moment, or a time without one.
pub data ParsedTime : Type 0 where
  aware naive : ℕ → ParsedTime

-- `_STAR_RATINGS.get(star_rating) if isinstance(star_rating, str) else None`
unfoldable pub rating_of : Option StarRating → Option ℕ
rating_of none = none
rating_of (some other) = none
rating_of (some (name t)) =
    if t == codes "ONE"
    then some 1
    else if t == codes "TWO"
    then some 2
    else if t == codes "THREE"
    then some 3
    else if t == codes "FOUR"
    then some 4
    else if t == codes "FIVE"
    then some 5
    else none

-- `value.strip()` is not empty.
unfoldable pub has_text : Text → Bool
unfolding is_space
has_text [] = false
has_text (c ∷ cs) = not (is_space c) || has_text cs

-- `_clean_text`
unfoldable pub clean_text : Option Text → Option Text
clean_text none = none
clean_text (some value) = if has_text value then some value else none

-- The truth of a text that may be absent: `value or None`.
unfoldable pub nonempty : Option Text → Option Text
nonempty none = none
nonempty (some []) = none
nonempty (some (c ∷ cs)) = some (c ∷ cs)

-- The reviewer's name, unless the review is anonymous.
unfoldable pub name_of : Option Reviewer → Option Text
name_of none = none
name_of (some reviewer) = if reviewer.is_anonymous then none else nonempty reviewer.display_name

unfoldable pub reply_text : Option ReviewReply → Option Text
reply_text none = none
reply_text (some reply) = clean_text reply.comment

unfoldable pub reply_time : Option ReviewReply → Option Text
reply_time none = none
reply_time (some reply) = nonempty reply.update_time

-- The `NormalizedReview(…)` call, on the times that were read.
unfoldable pub review_from :
    ReviewEntry → Text → ℕ → (created : ℕ) → (updated replied : Option ℕ) → NormalizedReview
review_from entry review_id rating created updated replied = record {
  source_review_id = review_id;
  rating = rating;
  review_text = clean_text entry.comment;
  reviewer_name = name_of entry.reviewer;
  created_at = created;
  updated_at = elim updated [ none ↦ created | some t ↦ t ];
  owner_reply_text = reply_text entry.review_reply;
  owner_reply_at = replied;
  language = codes "und";
  raw_payload = entry.payload;
}

module _ (from_iso_format : Text → Option ParsedTime) where
  -- `_parse_datetime`: a time without a zone is taken as UTC. The message ends before the value's
  -- `repr`.
  unfoldable pub parse_datetime : Text → Text → Text → Result ℕ
  parse_datetime value field_name review_id = elim (from_iso_format value) [
    | none ↦
        raise source_fetch_error
          (codes "Google review " ++ (review_id ++ (codes " has an unparsable " ++ field_name)))
    | some parsed ↦ elim parsed [ aware t ↦ ok t | naive t ↦ ok t ]
  ]

  -- `… if value else …`
  unfoldable pub parse_optional : Option Text → Text → Text → Option ℕ → Result (Option ℕ)
  parse_optional none field_name review_id fallback = ok fallback
  parse_optional (some value) field_name review_id fallback =
      parse_datetime value field_name review_id >>= λ t. ok (some t)

  -- The entry's fields behind its id and its rating.
  unfoldable pub build_review : ReviewEntry → Text → ℕ → Text → Result NormalizedReview
  build_review entry review_id rating create_time = do
    created ← parse_datetime create_time (codes "createTime") review_id
    updated ←
        parse_optional (nonempty entry.update_time) (codes "updateTime") review_id (some created)
    replied ←
        parse_optional (reply_time entry.review_reply) (codes "reviewReply.updateTime") review_id
          none
    ok (review_from entry review_id rating created updated replied)

  -- The entry behind its id: `None` for a rating that is no star rating.
  unfoldable pub rated_review : ReviewEntry → Text → Option ℕ → Result (Option NormalizedReview)
  rated_review entry review_id none = ok none
  rated_review entry review_id (some rating) = elim (nonempty entry.create_time) [
    | none ↦
        raise source_fetch_error
          (codes "Google review " ++ (review_id ++ codes " is missing createTime"))
    | some create_time ↦
        build_review entry review_id rating create_time >>= λ review. ok (some review)
  ]

  -- `to_normalized_review`
  unfoldable pub to_normalized_review : ReviewEntry → Result (Option NormalizedReview)
  to_normalized_review entry = elim (nonempty entry.review_id) [
    | none ↦ raise source_fetch_error (codes "Google review payload is missing reviewId")
    | some review_id ↦ rated_review entry review_id (rating_of entry.star_rating)
  ]
