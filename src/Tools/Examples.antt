-- ===== src/Tools/Examples.antt =====
-- A document and two sources that cite it, one of them wrongly.
use review_signal.Tools.Stub.{pages_of, seed_corpus, stub_adapter}
use review_signal.Ingestion.Session.{Session}
use review_signal.Ingestion.Record.{NormalizedReview}
use review_signal.Base.{
  ◌≡◌, refl, ◌⊎◌, none, some, [], ◌∷◌, ◌++◌, map, length, All, Any, Text, codes, is_space,
  strip_left, strip_right, strip, nat_eq, list_eq, option_eq, ℕ, ◌≤◌, List, arith, Result, end, ok,
}
use review_signal.Tools.Scanning.{
  sections_in, documents_in, wrapped_document, match_heading, match_item, section_number, span,
  starts_with, spaced_body, ends_in_prd, reverse_onto, last,
}
use review_signal.Tools.Citations.{
  section_titles, split_lines, titles_from, put_title, total, parse_citations, parse_lines,
  attribute, cite, document_in,
}
use review_signal.Tools.Sorting.{SourceFile, read_document, citations_in, check, main}
use review_signal.Tools.Seeding.{drained, seed_corpus-total}
use review_signal.Tools.Gate.{IsSupported, main-IsSupported}

-- "## 16. Title" with an item, and a heading of the other form.
abbrev spec : Text × Text
spec = (
  codes "api-spec.md",
  codes "## 16. Title" ++ 10 ∷ codes "5. Rule" ++ 10 ∷ codes "# **7\\. Other**" ++ 10 ∷ [],
)

spec_titles :
    section_titles spec.1
    ≡ (codes "16", codes "Title") ∷ (codes "16.5", codes "Rule") ∷ (codes "7", codes "Other") ∷ []
unfolding section_titles split_lines titles_from put_title match_heading match_item span
    section_number spaced_body strip strip_left strip_right is_space starts_with
spec_titles = refl

-- A citation on its document's line, one that the formatter wrapped, and one without a document.
abbrev source : SourceFile
source = record {
  relative = codes "apps/api/a.py";
  parts = codes "apps" ∷ codes "api" ∷ codes "a.py" ∷ [];
  name = codes "a.py";
  content =
      codes "see api-spec.md "
      ++ 167 ∷ codes "16.5"
      ++ 10 ∷ codes "api-spec.md"
      ++ 10 ∷ 167 ∷ codes "8 and "
      ++ 10 ∷ codes "the "
      ++ 167 ∷ codes "3";
}

found_citations :
    parse_citations source.content none
    ≡ record { line = 1; section = codes "16.5"; document = some (codes "api-spec.md"); path = [] }
      ∷ record { line = 3; section = codes "8"; document = some (codes "api-spec.md"); path = [] }
      ∷ record { line = 4; section = codes "3"; document = none; path = [] }
      ∷ []
unfolding parse_citations parse_lines split_lines sections_in section_number cite attribute
    document_in documents_in last ends_in_prd wrapped_document reverse_onto span strip_left is_space
    starts_with
found_citations = refl

main-IsSupported_example :
    let documents = map read_document (spec ∷ []) in
    let citations = citations_in documents (source ∷ []) in
    (total (check (spec ∷ []) (source ∷ [])).0 ≡ length citations)
    × ((main (spec ∷ []) (source ∷ []) ≡ 0) × All (IsSupported documents) citations
        ⊎ (main (spec ∷ []) (source ∷ []) ≡ 1) × Any (λ c. IsSupported documents c → ⊥) citations)
main-IsSupported_example = main-IsSupported (spec ∷ []) (source ∷ [])

-- Three reviews in pages of two.
abbrev stub_review : Text → NormalizedReview
stub_review key = record {
  source_review_id = key;
  rating = 5;
  review_text = none;
  reviewer_name = none;
  created_at = 1;
  updated_at = 1;
  owner_reply_text = none;
  owner_reply_at = none;
  language = codes "en";
  raw_payload = end;
}

abbrev stub_reviews : List NormalizedReview
stub_reviews = stub_review (codes "a") ∷ stub_review (codes "b") ∷ stub_review (codes "c") ∷ []

abbrev idle_session : Session
idle_session = record {
  committed = record { reviews = []; sync_runs = [] };
  work = record { reviews = []; sync_runs = [] };
  next_id = 0;
  db_now = 0;
}

seed_corpus-total_example :
    (pages : List (List NormalizedReview)) × (pages_of 2 stub_reviews ≡ ok pages)
    × (drained (stub_adapter pages) (length pages) 0 none ≡ stub_reviews)
    × ((fuel : ℕ)
        → length pages ≤ fuel
        → (r : Result (Unit {0}) × Session) × (seed_corpus 2 stub_reviews 3 4 fuel idle_session
            ≡ some r))
seed_corpus-total_example = seed_corpus-total 2 stub_reviews 3 4 idle_session (omega arith)
