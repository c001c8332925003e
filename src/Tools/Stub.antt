-- ===== src/Tools/Stub.antt =====
-- The stub source of tools/seed_stub_reviews.py, and seeding from it. The generated reviews are an
-- argument: the generator is a seeded `random.Random`.
use review_signal.Base.{
  ℕ, zero, suc, ◌+◌, Option, none, some, List, [], ◌∷◌, ltb, if◌then◌else◌, length, get_elem?, take,
  drop, ◌==◌, Text, codes, decimal_text, value_error, external, Result, err, ok, raise, nat_eq,
  list_eq, option_eq,
}
use review_signal.Ingestion.Record.{NormalizedReview, ReviewPage, IngestionOutcome}
use review_signal.Ingestion.Session.{Session}
use review_signal.Ingestion.Service.{Adapter, backfill}
use review_signal.Connection.Ingest.{leave_scope}

-- `[reviews[i : i + page_size] for i in range(0, len(reviews), page_size)]`, with fuel for each review.
unfoldable pub chunks : (fuel page_size : ℕ) → List NormalizedReview → List (List NormalizedReview)
chunks fuel page_size [] = []
chunks zero page_size (r ∷ rest) = []
chunks (suc fuel) page_size (r ∷ rest) =
    take page_size (r ∷ rest) ∷ chunks fuel page_size (drop page_size (r ∷ rest))

abbrev pub or_one_empty : List (List NormalizedReview) → List (List NormalizedReview)
or_one_empty [] = [] ∷ []
or_one_empty (page ∷ pages) = page ∷ pages

-- `StubReviewSourceAdapter.__init__`: the pages; `range` refuses a step of zero.
unfoldable pub pages_of : ℕ → List NormalizedReview → Result (List (List NormalizedReview))
unfolding chunks
pages_of page_size reviews =
    if page_size == 0
    then raise value_error (codes "range() arg 3 must not be zero")
    else ok (or_one_empty (chunks (length reviews) page_size reviews))

-- `fetch_page`, on the index that the adapter keeps; the cursor is not read.
unfoldable pub fetch_stub : List (List NormalizedReview) → ℕ → Option Text → Result ReviewPage × ℕ
unfolding decimal_text
fetch_stub pages index cursor = elim (get_elem? pages index) [
  | none ↦ (raise (external (codes "IndexError")) (codes "list index out of range"), index)
  | some page ↦ (
    ok (record {
      reviews = page;
      next_cursor =
          if ltb (index + 1) (length pages) then some (decimal_text (index + 1)) else none;
      unmappable_count = 0;
    }),
    index + 1,
  )
]

abbrev pub stub_adapter : List (List NormalizedReview) → Adapter ℕ
stub_adapter pages = record { source = codes "stub"; fetch_page = fetch_stub pages }

abbrev pub close_scope :
    Option (Result IngestionOutcome × Session) → Option (Result (Unit {0}) × Session)
close_scope none = none
close_scope (some (r, s)) = some (leave_scope r s)

-- `seed_corpus`: `none` when the fuel for the pages runs out.
unfoldable pub seed_corpus :
    (page_size : ℕ)
    → List NormalizedReview
    → (begun ended fuel : ℕ) → Session
    → Option (Result (Unit {0}) × Session)
unfolding pages_of backfill leave_scope
seed_corpus page_size reviews begun ended fuel s = elim (pages_of page_size reviews) [
  | err e ↦ some (err e, s)
  | ok pages ↦ close_scope (backfill (stub_adapter pages) begun ended fuel 0 s)
]
