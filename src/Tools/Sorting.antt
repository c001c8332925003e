-- ===== src/Tools/Sorting.antt =====
-- The report of tools/check_citations.py, and which citations make the gate fail.
use review_signal.Base.{
  ℕ, Bool, ◌||◌, Option, none, some, List, [], ◌∷◌, ◌++◌, map, if◌then◌else◌, any, ◌==◌, Text,
  codes, nat_eq, list_eq, option_eq,
}
use review_signal.Tools.Citations.{
  exempt_documents, excluded, Citation, Report, empty_report, has_failed, parse_citations, Titles,
  get_title, section_titles,
}

-- `Documents`: each document's name and titles.
abbrev pub Documents : Type 0
Documents = List (Text × Titles)

unfoldable pub get_document : Text → Documents → Option Titles
get_document name [] = none
get_document name ((k, titles) ∷ rest) = if k == name then some titles else get_document name rest

abbrev pub is_listed : List Text → Text → Bool
is_listed names name = any (λ n. n == name) names

-- One round of the loop of `resolve`.
unfoldable pub sort_one : Documents → Citation → Report → Report
unfolding get_document get_title
sort_one documents citation report = elim citation.document [
  | none ↦ record report { unattributed = report.unattributed ++ citation ∷ [] }
  | some name ↦ elim (get_document name documents) [
    | none ↦
        if is_listed exempt_documents name
        then record report { exempt = report.exempt ++ citation ∷ [] }
        else record report { skipped = report.skipped ++ citation ∷ [] }
    | some titles ↦ elim (get_title citation.section titles) [
      | none ↦ record report { broken = report.broken ++ citation ∷ [] }
      | some title ↦ record report { ok_list = report.ok_list ++ citation ∷ [] }
    ]
  ]
]

-- `resolve`, from the report so far.
unfoldable pub resolve_onto : Documents → Report → List Citation → Report
unfolding sort_one
resolve_onto documents report [] = report
resolve_onto documents report (citation ∷ rest) =
    resolve_onto documents (sort_one documents citation report) rest

abbrev pub resolve : List Citation → Documents → Report
resolve citations documents = resolve_onto documents empty_report citations

-- A file of the walk: its path below the root, the path's parts, its name and its content.
pub record SourceFile : Type 0 where
  pub relative : Text
  pub parts : List Text
  pub name : Text
  pub content : Text

abbrev pub read_document : Text × Text → Text × Titles
read_document (name, markdown) = (name, section_titles markdown)

abbrev pub place : Text → Citation → Citation
place path citation = record citation { path = path }

-- The citations of one file.
unfoldable pub citations_of : Documents → SourceFile → List Citation
unfolding parse_citations get_document
citations_of documents file =
    if is_listed file.parts (codes "__pycache__") || is_listed excluded file.relative
    then []
    else map (place file.relative) (
        parse_citations file.content
          (elim (get_document file.name documents) [ none ↦ none | some titles ↦ some file.name ]))

unfoldable pub citations_in : Documents → List SourceFile → List Citation
unfolding citations_of
citations_in documents [] = []
citations_in documents (file ∷ rest) = citations_of documents file ++ citations_in documents rest

-- `check`, on the documents' and the sources' contents.
unfoldable pub check : List (Text × Text) → List SourceFile → Report × Documents
unfolding section_titles citations_in resolve_onto
check markdown files =
    let documents = map read_document markdown in
    (resolve (citations_in documents files) documents, documents)

-- `main`: its exit status. What it prints is the report's lists.
unfoldable pub main : List (Text × Text) → List SourceFile → ℕ
unfolding check has_failed
main markdown files = if has_failed (check markdown files).0 then 1 else 0
