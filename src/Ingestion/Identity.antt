-- ===== src/Ingestion/Identity.antt =====
-- The upsert as an update of a map from `source_review_id` to the stored review.
use review_signal.Base.{
  subst, eq_iff, Option, ◌≡◌, refl, ◌↔◌, inl, inr, false, not, none, some, List, [], ◌∷◌, ◌++◌,
  arith, if◌then◌else◌, Eq, ◌==◌, eq_cases, Text, nat_eq, list_eq, option_eq,
}
use review_signal.Ingestion.Record.{UpsertOutcome, NormalizedReview, Review}
use review_signal.Ingestion.Upsert.{initial_status, find_review, replace_review, is_changed}

-- A stored row carries what the source last said, in every field that a source may change.
abbrev pub Matches : Review → NormalizedReview → Type 0
Matches row review =
    (row.source_review_id ≡ review.source_review_id)
    × (row.rating ≡ review.rating)
    × (row.review_text ≡ review.review_text)
    × (row.reviewer_name ≡ review.reviewer_name)
    × (row.updated_at ≡ review.updated_at)
    × (row.owner_reply_text ≡ review.owner_reply_text)
    × (row.owner_reply_at ≡ review.owner_reply_at)

not_eq-false : {A : Type 0} ⦃e : Eq A⦄ → (a b : A) → (not (a == b) ≡ false) ↔ (a ≡ b)
not_eq-false a b = elim (eq_cases a b) [
  | inl (h, p) ↦ rw h (ground arith)
  | inr (h, p) ↦ rw h ((λ e. cc), (λ e. absurd (p e)))
]

-- The change test is false exactly when nothing that it compares differs.
pub is_changed_iff :
    (row : Review) (review : NormalizedReview)
    → row.source_review_id ≡ review.source_review_id
    → (is_changed row review ≡ false) ↔ Matches row review
unfolding is_changed
is_changed_iff row review same = ground (
  arith,
  not_eq-false row.review_text review.review_text,
  not_eq-false row.owner_reply_text review.owner_reply_text,
  not_eq-false row.owner_reply_at review.owner_reply_at,
  not_eq-false row.rating review.rating,
  not_eq-false row.updated_at review.updated_at,
  not_eq-false row.reviewer_name review.reviewer_name,
)

pub find_review-append :
    (key : Text) (row : Review) (rows : List Review)
    → find_review row.source_review_id rows ≡ none
    → find_review key (rows ++ row ∷ [])
      ≡ (if row.source_review_id == key then some row else find_review key rows)
unfolding find_review
find_review-append key row [] h = refl
find_review-append key row (r ∷ rows) h = ground (
  arith,
  eq_iff r.source_review_id key,
  eq_iff row.source_review_id key,
  eq_iff r.source_review_id row.source_review_id,
  find_review-append key row rows,
)

pub find_review-replace :
    (key : Text) (row : Review) (rows : List Review) (old : Review)
    → find_review row.source_review_id rows ≡ some old
    → find_review key (replace_review row.source_review_id row rows)
      ≡ (if row.source_review_id == key then some row else find_review key rows)
unfolding find_review replace_review
find_review-replace key row [] old h = cc
find_review-replace key row (r ∷ rows) old h =
    elim (eq_cases r.source_review_id row.source_review_id) [
      | inl (hit, p) ↦
          rw (hit, replace_review)
            (elim (eq_cases row.source_review_id key) [
              | inl (k, q) ↦ rw k
              | inr (k, q) ↦ rw (p, k)
            ])
      | inr (miss, p) ↦
          let ih = find_review-replace key row rows old (rw miss at h) in
          rw (miss, replace_review)
            (ground (
              arith,
              ih,
              eq_iff r.source_review_id key,
              eq_iff row.source_review_id key,
              eq_iff r.source_review_id row.source_review_id,
            ))
    ]

pub find_review-id :
    (key : Text) (rows : List Review) (row : Review)
    → find_review key rows ≡ some row
    → row.source_review_id ≡ key
unfolding find_review
find_review-id key [] row h = cc
find_review-id key (r ∷ rows) row h =
    ground (arith, eq_iff r.source_review_id key, find_review-id key rows row)

-- The same under the id that the query asked for.
pub find_review-replace_id :
    (key id : Text) (row : Review) (rows : List Review) (old : Review)
    → row.source_review_id ≡ id
    → find_review id rows ≡ some old
    → find_review key (replace_review id row rows)
      ≡ (if id == key then some row else find_review key rows)
find_review-replace_id key id row rows old e =
    subst
      (λ (t : Text).
        find_review t rows ≡ some old
        → find_review key (replace_review t row rows)
          ≡ (if t == key then some row else find_review key rows))
      e (find_review-replace key row rows old)

-- What each answer of an upsert says of the row found before it and the row found after it.
abbrev pub Answers :
    Text → NormalizedReview → Option Review → Option Review → UpsertOutcome → Type 0
Answers source review before after UpsertOutcome.created =
    (before ≡ none)
    × ((row : Review) × (after ≡ some row)
        × Matches row review
        × (row.source ≡ source)
        × (row.created_at ≡ review.created_at)
        × (row.analysis_status ≡ initial_status review.review_text))
Answers source review before after UpsertOutcome.updated =
    (old : Review) × (before ≡ some old)
    × ¬ Matches old review
    × ((row : Review) × (after ≡ some row)
        × Matches row review
        × (row.id ≡ old.id)
        × (row.created_at ≡ old.created_at)
        × (row.analysis_status ≡ (
            if old.review_text == review.review_text
            then old.analysis_status
            else initial_status review.review_text)))
Answers source review before after UpsertOutcome.unchanged =
    (old : Review) × (before ≡ some old) × Matches old review × (after ≡ some old)
