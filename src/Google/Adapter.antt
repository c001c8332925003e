-- ===== src/Google/Adapter.antt =====
-- integrations/google/adapter.py: one page of reviews out of one response envelope.
use review_signal.Base.{
  ℕ, suc, ◌+◌, ◌≡◌, ◌≢◌, Option, none, some, List, [], ◌∷◌, arith, length, Text, Result, ok, ◌>>=◌,
  >>=-eq-ok, nat_eq, list_eq, option_eq,
}
use review_signal.Ingestion.Record.{NormalizedReview, ReviewPage}
use review_signal.Google.Mapping.{ReviewEntry, ParsedTime, nonempty, to_normalized_review}

-- The response body of `reviews.list`.
pub record Envelope : Type 0 where
  pub reviews : List ReviewEntry
  pub next_page_token : Option Text

module _ (from_iso_format : Text → Option ParsedTime) where
  -- The loop over the entries, with what has been mapped so far counted by the caller.
  unfoldable pub map_entries : List ReviewEntry → Result (List NormalizedReview × ℕ)
  map_entries [] = ok ([], 0)
  map_entries (entry ∷ rest) = to_normalized_review from_iso_format entry >>= λ normalized.
      map_entries rest >>= λ tail.
      ok (elim normalized [ none ↦ (tail.0, tail.1 + 1) | some review ↦ (review ∷ tail.0, tail.1) ])

  -- `GoogleReviewSourceAdapter.fetch_page` on the client's envelope.
  unfoldable pub page_of : Envelope → Result ReviewPage
  page_of envelope = map_entries envelope.reviews >>= λ mapped. ok (record {
    reviews = mapped.0;
    next_cursor = nonempty envelope.next_page_token;
    unmappable_count = mapped.1;
  })

  map_entries-length :
      (entries : List ReviewEntry) (r : List NormalizedReview × ℕ)
      → map_entries entries ≡ ok r
      → length r.0 + r.1 ≡ length entries
  unfolding map_entries
  map_entries-length [] r e = ground arith
  map_entries-length (entry ∷ rest) r e =
      let (normalized, mapped, e₁) = >>=-eq-ok (to_normalized_review from_iso_format entry) _ e in
      let (tail, e₂, e₃) = >>=-eq-ok (map_entries rest) _ e₁ in
      let ih = map_entries-length rest tail e₂ in counted normalized tail e₃ ih
    where
      counted :
          (normalized : Option NormalizedReview) (tail : List NormalizedReview × ℕ)
          → ◌≡◌ {A = Result (List NormalizedReview × ℕ)}
              (ok (elim normalized [
                | none ↦ (tail.0, tail.1 + 1)
                | some review ↦ (review ∷ tail.0, tail.1)
              ]))
              (ok r)
          → length tail.0 + tail.1 ≡ length rest
          → length r.0 + r.1 ≡ suc (length rest)
      counted none tail h ih = ground arith
      counted (some review) tail h ih = ground arith

  -- A page that is served accounts for every entry of the envelope, as a review or as unmappable, and
  -- never carries an empty cursor.
  pub page_of-accounts :
      (envelope : Envelope) (page : ReviewPage)
      → page_of envelope ≡ ok page
      → (length page.reviews + page.unmappable_count ≡ length envelope.reviews)
        × (page.next_cursor ≢ some [])
  unfolding page_of nonempty
  page_of-accounts envelope page e =
      let (mapped, e₁, e₂) = >>=-eq-ok (map_entries envelope.reviews) _ e in
      let count = map_entries-length envelope.reviews mapped e₁ in ground arith
