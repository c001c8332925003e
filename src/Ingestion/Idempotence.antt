-- ===== src/Ingestion/Idempotence.antt =====
-- What `upsert` does to the table, as a map from source ids, and that a second one changes nothing.
use review_signal.Base.{
  ok, not, Bool, true, ◌≡◌, refl, sym, ◌∙◌, ◌≢◌, inl, inr, false, Option, none, some, List, [], ◌∷◌,
  ◌++◌, if◌then◌else◌, Bool-cases, ◌==◌, eq_refl, eq_cases, Text, nat_eq, list_eq, option_eq,
}
use review_signal.Ingestion.Record.{unchanged, UpsertOutcome, NormalizedReview, Review}
use review_signal.Ingestion.Session.{flush, Session}
use review_signal.Ingestion.Upsert.{
  upsert, replace_review, initial_status, find_review, new_review, is_changed, updated_review,
  upsert_found,
}
use review_signal.Ingestion.Identity.{
  Matches, Answers, is_changed_iff, find_review-append, find_review-replace_id, find_review-id,
}

abbrev pub table : Session → List Review
table s = s.work.reviews

-- Every other source id still finds what it found.
abbrev pub LeavesOthers : Text → List Review → List Review → Type 0
LeavesOthers id rows rows' = (key : Text) → key ≢ id → find_review key rows' ≡ find_review key rows

other-false : (id key : Text) → key ≢ id → (id == key) ≡ false
other-false id key ne = elim (eq_cases id key) [ inl (h, p) ↦ absurd (ne (sym p)) | inr (h, p) ↦ h ]

upsert_found-Answers :
    (source : Text) (review : NormalizedReview) (before : Option Review) (s : Session)
    → find_review review.source_review_id (table s) ≡ before
    → let (o, s') = upsert_found source review before s in
      Answers source review before (find_review review.source_review_id (table s')) o
      × LeavesOthers review.source_review_id (table s) (table s')
unfolding upsert_found new_review updated_review
upsert_found-Answers source review none s h = (
  (refl, (row, find_it ∙ rw (eq_refl review.source_review_id), same, refl, refl, refl)),
  λ key ne. find_other key ∙ rw (other-false review.source_review_id key ne),
)
  where
    row : Review
    row = new_review source review s.next_id s.db_now

    find_other :
        (key : Text)
        → find_review key (table s ++ row ∷ [])
          ≡ (if review.source_review_id == key then some row else find_review key (table s))
    find_other key = find_review-append key row (table s) h

    same : Matches row review
    same = (refl, refl, refl, refl, refl, refl, refl)

    find_it : find_review review.source_review_id (table s ++ row ∷ []) ≡ (
        if review.source_review_id == review.source_review_id
        then some row
        else find_review review.source_review_id (table s))
    find_it = find_other review.source_review_id
upsert_found-Answers source review (some old) s h = elim (Bool-cases (is_changed old review)) [
  | inl yes_changed ↦
      rw (yes_changed, upsert_found)
        (
          (
            old,
            refl,
            differs yes_changed,
            (
              row,
              find_other review.source_review_id ∙ rw (eq_refl review.source_review_id),
              same,
              refl,
              refl,
              status (old.review_text == review.review_text),
            ),
          ),
          λ key ne. find_other key ∙ rw (other-false review.source_review_id key ne),
        )
  | inr same ↦
      rw (same, upsert_found)
        ((old, refl, (is_changed_iff old review known).0 same, h), λ key ne. refl)
]
  where
    known : old.source_review_id ≡ review.source_review_id
    known = find_review-id review.source_review_id (table s) old h

    row : Review
    row = updated_review old review

    same : Matches row review
    same = (known, refl, refl, refl, refl, refl, refl)

    differs : is_changed old review ≡ true → ¬ Matches old review
    differs h m = cc ((is_changed_iff old review known).1 m)

    status :
        (b : Bool)
        → (if not b then initial_status review.review_text else old.analysis_status)
          ≡ (if b then old.analysis_status else initial_status review.review_text)
    status true = refl
    status false = refl

    find_other :
        (key : Text)
        → find_review key (replace_review review.source_review_id row (table s))
          ≡ (if review.source_review_id == key then some row else find_review key (table s))
    find_other key = find_review-replace_id key review.source_review_id row (table s) old known h

-- On a session whose rows the database accepts, an upsert always answers, and the answer is true:
-- `created` for an id that was not stored, whose row now holds the review; `updated` for a row that
-- differed, which now matches and keeps its id, its creation time and, for an unchanged text, its
-- analysis status; `unchanged` for a row that matched, which stays. Rows under other ids stay.
pub upsert-Answers :
    (source : Text) (review : NormalizedReview) (s : Session)
    → flush s ≡ ok tt
    → let (r, s') = upsert source review s in
      let id = review.source_review_id in
      (o : UpsertOutcome) × (r ≡ ok o)
      × Answers source review (find_review id (table s)) (find_review id (table s')) o
      × LeavesOthers id (table s) (table s')
unfolding upsert
upsert-Answers source review s accepted =
    let before = find_review review.source_review_id (table s) in
    let found = upsert_found-Answers source review before s refl in
    rw (accepted, upsert) ((upsert_found source review before s).0, refl, found.0, found.1)

Answers-found :
    (source : Text) (review : NormalizedReview) (before after : Option Review) (o : UpsertOutcome)
    → Answers source review before after o
    → (row : Review) × (after ≡ some row) × Matches row review
Answers-found source review before after UpsertOutcome.created (_, (row, e, m, _, _, _)) =
    (row, e, m)
Answers-found source review before after UpsertOutcome.updated (_, _, _, (row, e, m, _, _, _)) =
    (row, e, m)
Answers-found source review before after UpsertOutcome.unchanged (row, _, m, e) = (row, e, m)

upsert_known :
    (source : Text) (review : NormalizedReview) (s : Session) (row : Review)
    → flush s ≡ ok tt
    → find_review review.source_review_id (table s) ≡ some row
    → Matches row review
    → upsert source review s ≡ (ok unchanged, s)
unfolding upsert upsert_found
upsert_known source review s row accepted found m =
    let same = (is_changed_iff row review m.0).1 m in
    rw (accepted, found, upsert, upsert_found, same)

-- The upsert is idempotent: where the database accepts the rows before and after it, the same
-- review a second time answers `unchanged` and leaves the whole session as it was.
pub upsert_twice :
    (source : Text) (review : NormalizedReview) (s : Session)
    → flush s ≡ ok tt
    → flush (upsert source review s).1 ≡ ok tt
    → upsert source review (upsert source review s).1 ≡ (ok unchanged, (upsert source review s).1)
upsert_twice source review s accepted again =
    let (o, e, answers, others) = upsert-Answers source review s accepted in
    let (row, found, m) = Answers-found source review _ _ o answers in
    upsert_known source review (upsert source review s).1 row again found m
