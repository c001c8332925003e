-- ===== src/Tools/Seeding.antt =====
-- What the stub source gives to a reader of its cursors, and that seeding ends.
use review_signal.Ingestion.Runs.{run-total}
use review_signal.Connection.Ingest.{leave_scope}
use review_signal.Ingestion.Session.{Session}
use review_signal.Ingestion.Walk.{RunsOut}
use review_signal.Ingestion.Service.{Adapter, backfill}
use review_signal.Base.{
  ℕ, zero, suc, ◌≤◌, ◌<◌, ◌≡◌, refl, ap, ◌∙◌, some, List, [], ◌∷◌, ◌++◌, arith, length, get_elem?,
  take, drop, take-append-drop, length-drop, nat_eq, list_eq, option_eq, ◌+◌, false, Option, none,
  ltb, ◌==◌, Text, decimal_text, Result, ok, true, sym, subst, Bool, if◌then◌else◌, err,
}
use review_signal.Ingestion.Record.{NormalizedReview, IngestionOutcome, ReviewPage}
use review_signal.Tools.Stub.{chunks, or_one_empty, fetch_stub, pages_of, seed_corpus, stub_adapter}

-- All pages, one after another.
unfoldable pub concatenated : List (List NormalizedReview) → List NormalizedReview
concatenated [] = []
concatenated (page ∷ pages) = page ++ concatenated pages

chunks-concatenated :
    (fuel page_size : ℕ) (reviews : List NormalizedReview)
    → 1 ≤ page_size
    → length reviews ≤ fuel
    → concatenated (chunks fuel page_size reviews) ≡ reviews
unfolding concatenated chunks
chunks-concatenated fuel page_size [] one le = refl
chunks-concatenated zero page_size (r ∷ rest) one le = absurd (omega arith)
chunks-concatenated (suc fuel) page_size (r ∷ rest) one le =
    let shorter : length (drop page_size (r ∷ rest)) ≤ fuel =
      omega (arith, length-drop page_size (r ∷ rest)) in
    ap (λ t. take page_size (r ∷ rest) ++ t)
      (chunks-concatenated fuel page_size (drop page_size (r ∷ rest)) one shorter)
    ∙ take-append-drop page_size (r ∷ rest)

or_one_empty-concatenated :
    (pages : List (List NormalizedReview)) → concatenated (or_one_empty pages) ≡ concatenated pages
unfolding concatenated
or_one_empty-concatenated [] = refl
or_one_empty-concatenated (page ∷ pages) = refl

or_one_empty-length : (pages : List (List NormalizedReview)) → 1 ≤ length (or_one_empty pages)
or_one_empty-length [] = omega arith
or_one_empty-length (page ∷ pages) = omega arith

get_elem-within :
    (pages : List (List NormalizedReview)) (i : ℕ)
    → i < length pages
    → (page : List NormalizedReview) × (get_elem? pages i ≡ some page)
get_elem-within [] i lt = absurd (omega arith)
get_elem-within (page ∷ pages) zero lt = (page, refl)
get_elem-within (page ∷ pages) (suc i) lt = get_elem-within pages i (omega arith)

abbrev stub_page : List NormalizedReview → Option Text → Result ReviewPage
stub_page page next = ok (record { reviews = page; next_cursor = next; unmappable_count = 0 })

fetch_stub-page :
    (pages : List (List NormalizedReview)) (i : ℕ) (cursor : Option Text)
    (page : List NormalizedReview) (more : Bool)
    → get_elem? pages i ≡ some page
    → ltb (i + 1) (length pages) ≡ more
    → fetch_stub pages i cursor
      ≡ (stub_page page (if more then some (decimal_text (i + 1)) else none), i + 1)
unfolding fetch_stub
fetch_stub-page pages i cursor page more found h =
    rw (fetch_stub, found)
      (ap
        (λ b.
          (let p : Result ReviewPage × ℕ =
              (stub_page page (if b then some (decimal_text (i + 1)) else none), i + 1) in
            p))
        h)

-- What the source still has, by the page that it gives now.
abbrev After : List (List NormalizedReview) → ℕ → Result ReviewPage × ℕ → Type 0
After pages n (r, index) = elim r [
  | err e ↦ Unit
  | ok page ↦ elim page.next_cursor [
    | none ↦ Unit
    | some next ↦ RunsOut (stub_adapter pages) n index (some next)
  ]
]

-- From an index on, the stub has as many pages as are left.
stub-RunsOut :
    (pages : List (List NormalizedReview)) (n i : ℕ) (cursor : Option Text)
    → i + suc n ≡ length pages
    → RunsOut (stub_adapter pages) (suc n) i cursor
stub-RunsOut pages zero i cursor whole =
    let (page, found) = get_elem-within pages i (omega arith) in
    let last : ltb (i + 1) (length pages) ≡ false = ground arith in
    subst (After pages zero) (sym (fetch_stub-page pages i cursor page false found last)) tt
stub-RunsOut pages (suc n) i cursor whole =
    let (page, found) = get_elem-within pages i (omega arith) in
    let more : ltb (i + 1) (length pages) ≡ true = ground arith in
    subst (After pages (suc n)) (sym (fetch_stub-page pages i cursor page true found more))
      (stub-RunsOut pages n (i + 1) (some (decimal_text (i + 1))) (omega arith))

-- What a source gives to a reader that follows its cursors, from a state on and for a number of pages.
unfoldable pub drained : {A : Type 0} → Adapter A → ℕ → A → Option Text → List NormalizedReview
drained adapter zero a cursor = []
drained adapter (suc n) a cursor =
    let (fetched, a') = adapter.fetch_page a cursor in
    elim fetched [
      | err e ↦ []
      | ok page ↦
          page.reviews
          ++ (elim page.next_cursor [ none ↦ [] | some next ↦ drained adapter n a' (some next) ])
    ]

get_elem-drop :
    (pages : List (List NormalizedReview)) (i : ℕ) (page : List NormalizedReview)
    → get_elem? pages i ≡ some page
    → drop i pages ≡ page ∷ drop (suc i) pages
get_elem-drop [] i page h = cc h
get_elem-drop (p ∷ pages) zero page h = ground arith
get_elem-drop (p ∷ pages) (suc i) page h = get_elem-drop pages i page h

drop-all : (pages : List (List NormalizedReview)) (i : ℕ) → length pages ≤ i → drop i pages ≡ []
drop-all [] zero le = refl
drop-all [] (suc i) le = refl
drop-all (p ∷ pages) zero le = absurd (omega arith)
drop-all (p ∷ pages) (suc i) le = drop-all pages i (omega arith)

-- What the stub gives from a page that it has fetched on.
abbrev drained_by : List (List NormalizedReview) → ℕ → Result ReviewPage × ℕ → List NormalizedReview
drained_by pages n (r, index) = elim r [
  | err e ↦ []
  | ok page ↦ page.reviews ++ (elim page.next_cursor [
    | none ↦ []
    | some next ↦ drained (stub_adapter pages) n index (some next)
  ])
]

stub-drained :
    (pages : List (List NormalizedReview)) (n i : ℕ) (cursor : Option Text)
    → i + suc n ≡ length pages
    → drained (stub_adapter pages) (suc n) i cursor ≡ concatenated (drop i pages)
unfolding drained concatenated
stub-drained pages zero i cursor whole =
    let (page, found) = get_elem-within pages i (omega arith) in
    let last : ltb (i + 1) (length pages) ≡ false = ground arith in
    ap (drained_by pages zero) (fetch_stub-page pages i cursor page false found last)
    ∙ ap (λ t. page ++ concatenated t) (sym (drop-all pages (suc i) (omega arith)))
    ∙ sym (ap concatenated (get_elem-drop pages i page found))
stub-drained pages (suc n) i cursor whole =
    let (page, found) = get_elem-within pages i (omega arith) in
    let more : ltb (i + 1) (length pages) ≡ true = ground arith in
    let next : i + 1 ≡ suc i = omega arith in
    ap (drained_by pages (suc n)) (fetch_stub-page pages i cursor page true found more)
    ∙ ap (λ t. page ++ t)
        (stub-drained pages n (i + 1) (some (decimal_text (i + 1))) (omega arith)
          ∙ ap (λ m. concatenated (drop m pages)) next)
    ∙ sym (ap concatenated (get_elem-drop pages i page found))

-- With a page size above zero, a reader that follows the cursors of the stub source is given the
-- generated reviews, each once and in their order; and seeding from that source ends, well or badly,
-- with as much fuel as there are pages.
pub seed_corpus-total :
    (page_size : ℕ) (reviews : List NormalizedReview) (begun ended : ℕ) (s : Session)
    → 1 ≤ page_size
    → (pages : List (List NormalizedReview)) × (pages_of page_size reviews ≡ ok pages)
      × (drained (stub_adapter pages) (length pages) 0 none ≡ reviews)
      × ((fuel : ℕ)
          → length pages ≤ fuel
          → (r : Result (Unit {0}) × Session) × (seed_corpus page_size reviews begun ended fuel s
              ≡ some r))
unfolding pages_of seed_corpus backfill
seed_corpus-total page_size reviews begun ended s one =
    let pages = or_one_empty (chunks (length reviews) page_size reviews) in
    let named : pages_of page_size reviews ≡ ok pages = rw (pages_of, positive) refl in
    let (n, count) = some_pages (length pages) (or_one_empty-length _) in
    (
      pages,
      named,
      subst (λ m. drained (stub_adapter pages) m 0 none ≡ concatenated pages) count
            (stub-drained pages n 0 none (omega arith))
          ∙ or_one_empty-concatenated (chunks (length reviews) page_size reviews)
          ∙ chunks-concatenated (length reviews) page_size reviews one (omega arith),
      λ fuel enough.
          let (r, ran) =
            run-total (stub_adapter pages) none begun ended (suc n) fuel 0 s (omega arith)
              (stub-RunsOut pages n 0 none (omega arith)) in
          (closed r, rw (seed_corpus, named, backfill, ran) refl),
    )
  where
    positive : (page_size == 0) ≡ false
    positive = ground arith

    some_pages : (n : ℕ) → 1 ≤ n → (m : ℕ) × (suc m ≡ n)
    some_pages zero le = absurd (omega arith)
    some_pages (suc m) le = (m, refl)

    closed : Result IngestionOutcome × Session → Result (Unit {0}) × Session
    closed (r, s') = leave_scope r s'
