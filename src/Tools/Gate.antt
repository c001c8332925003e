-- ===== src/Tools/Gate.antt =====
-- When the citation gate passes.
use review_signal.Base.{
  ◌+◌, ◌≡◌, refl, ◌⊎◌, inl, inr, Bool, true, false, ◌||◌, Option, none, some, Text, nat_eq, list_eq,
  option_eq, sym, ap, ◌∙◌, arith, List, [], ◌∷◌, ◌++◌, Bool-cases, length, All, Any, length-append,
  any, map,
}
use review_signal.Tools.Citations.{
  Citation, Report, total, has_failed, Titles, get_title, empty_report, is_empty, exempt_documents,
}
use review_signal.Tools.Sorting.{
  Documents, get_document, sort_one, resolve_onto, SourceFile, read_document, citations_in, check,
  main, is_listed,
}

-- A citation that stands: it names a document, which has the section where it can be read at all.
abbrev pub IsSupported : Documents → Citation → Type 0
IsSupported documents citation =
    (name : Text) × (citation.document ≡ some name)
    × ((titles : Titles)
        → get_document name documents ≡ some titles
        → (title : Text) × (get_title citation.section titles ≡ some title))

abbrev is_untitled : Option Text → Bool
is_untitled none = true
is_untitled (some title) = false

abbrev lacks : Text → Option Titles → Bool
lacks section none = false
lacks section (some titles) = is_untitled (get_title section titles)

abbrev misses : Documents → Text → Option Text → Bool
misses documents section none = true
misses documents section (some name) = lacks section (get_document name documents)

abbrev is_broken : Documents → Citation → Bool
is_broken documents citation = misses documents citation.section citation.document

is_empty-append : (l : List Citation) (c : Citation) → is_empty (l ++ c ∷ []) ≡ false
is_empty-append [] c = refl
is_empty-append (d ∷ l) c = refl

-- What one round of the loop adds to the report.
sorted_one :
    (documents : Documents) (citation : Citation) (report : Report)
    → (total (sort_one documents citation report) ≡ total report + 1)
      × (has_failed (sort_one documents citation report)
          ≡ has_failed report || is_broken documents citation)
unfolding sort_one total has_failed
sorted_one documents citation report = go citation.document refl
  where
    Goal : Type 0
    Goal =
        (total (sort_one documents citation report) ≡ total report + 1)
        × (has_failed (sort_one documents citation report)
            ≡ has_failed report || is_broken documents citation)

    titled :
        (name : Text) (titles : Titles) (o : Option Text)
        → citation.document ≡ some name
        → get_document name documents ≡ some titles
        → get_title citation.section titles ≡ o
        → Goal
    titled name titles none h k t =
        simp (h, k, t, sort_one)
          (
            omega (arith, length-append report.broken (citation ∷ [])),
            rw (is_empty-append report.broken citation) (ground arith),
          )
    titled name titles (some title) h k t =
        simp (h, k, t, sort_one)
          (omega (arith, length-append report.ok_list (citation ∷ [])), ground arith)

    named :
        (name : Text) (o : Option Titles)
        → citation.document ≡ some name
        → get_document name documents ≡ o
        → Goal
    named name none h k = elim (Bool-cases (is_listed exempt_documents name)) [
      | inl e ↦
          simp (h, k, e, sort_one)
            (omega (arith, length-append report.exempt (citation ∷ [])), ground arith)
      | inr e ↦
          simp (h, k, e, sort_one)
            (omega (arith, length-append report.skipped (citation ∷ [])), ground arith)
    ]
    named name (some titles) h k = titled name titles _ h k refl

    go : (o : Option Text) → citation.document ≡ o → Goal
    go none h =
        simp (h, sort_one)
          (
            omega (arith, length-append report.unattributed (citation ∷ [])),
            rw (is_empty-append report.unattributed citation) (ground arith),
          )
    go (some name) h = named name _ h refl

is_broken-cases :
    (documents : Documents) (citation : Citation)
    → (is_broken documents citation ≡ false) × IsSupported documents citation
      ⊎ (is_broken documents citation ≡ true) × (IsSupported documents citation → ⊥)
is_broken-cases documents citation = go citation.document refl
  where
    Goal : Type 0
    Goal =
        (is_broken documents citation ≡ false) × IsSupported documents citation
        ⊎ (is_broken documents citation ≡ true) × (IsSupported documents citation → ⊥)

    titled :
        (name : Text) (titles : Titles) (o : Option Text)
        → citation.document ≡ some name
        → get_document name documents ≡ some titles
        → get_title citation.section titles ≡ o
        → Goal
    titled name titles none h k t = inr (
      ap (misses documents citation.section) h ∙ ap (lacks citation.section) k ∙ ap is_untitled t,
      λ s.
          let (n, e, f) = s in
          let same : n ≡ name = cc (h, e) in
          let (title, found) = f titles (ap (λ x. get_document x documents) same ∙ k) in
          cc (t, found),
    )
    titled name titles (some title) h k t = inl (
      ap (misses documents citation.section) h ∙ ap (lacks citation.section) k ∙ ap is_untitled t,
      (
        name,
        h,
        λ other found.
            let same : titles ≡ other = cc (k, found) in
            (title, ap (get_title citation.section) (sym same) ∙ t),
      ),
    )

    named :
        (name : Text) (o : Option Titles)
        → citation.document ≡ some name
        → get_document name documents ≡ o
        → Goal
    named name none h k = inl (
      ap (misses documents citation.section) h ∙ ap (lacks citation.section) k,
      (name, h, λ titles found. absurd (let no : none ≡ some titles = sym k ∙ found in cc no)),
    )
    named name (some titles) h k = titled name titles _ h k refl

    go : (o : Option Text) → citation.document ≡ o → Goal
    go none h = inr (
      ap (misses documents citation.section) h,
      λ s. let (n, e, f) = s in let no : none ≡ some n = sym h ∙ e in cc no,
    )
    go (some name) h = named name _ h refl

resolve_onto-counts :
    (documents : Documents) (report : Report) (citations : List Citation)
    → (total (resolve_onto documents report citations) ≡ total report + length citations)
      × (has_failed (resolve_onto documents report citations)
          ≡ has_failed report || any (is_broken documents) citations)
unfolding resolve_onto
resolve_onto-counts documents report [] = (omega arith, ground arith)
resolve_onto-counts documents report (citation ∷ rest) =
    let (counted, judged) =
      resolve_onto-counts documents (sort_one documents citation report) rest in
    let (one, verdict) = sorted_one documents citation report in
    (omega (arith, counted, one), ground (arith, judged, verdict))

-- Whether each citation stands, or some citation does not.
IsSupported-or_not :
    (documents : Documents) (citations : List Citation)
    → (any (is_broken documents) citations ≡ false) × All (IsSupported documents) citations
      ⊎ (any (is_broken documents) citations ≡ true)
        × Any (λ c. IsSupported documents c → ⊥) citations
IsSupported-or_not documents [] = inl (refl, tt)
IsSupported-or_not documents (c ∷ rest) = elim (is_broken-cases documents c) [
  | inr (e, fails) ↦ inr (ground arith, inl fails)
  | inl (e, stands) ↦ elim (IsSupported-or_not documents rest) [
    | inl (h, all_stand) ↦ inl (ground arith, (stands, all_stand))
    | inr (h, some_fails) ↦ inr (ground arith, inr some_fails)
  ]
]

-- The gate's exit status is 0 when every citation of the walked files stands, and 1 when some one
-- does not: it names no document, or a document on disk that lacks its section. The report accounts
-- for every citation of the walk.
pub main-IsSupported :
    (markdown : List (Text × Text)) (files : List SourceFile)
    → let documents = map read_document markdown in
      let citations = citations_in documents files in
      (total (check markdown files).0 ≡ length citations)
      × ((main markdown files ≡ 0) × All (IsSupported documents) citations
          ⊎ (main markdown files ≡ 1) × Any (λ c. IsSupported documents c → ⊥) citations)
unfolding check main total has_failed
main-IsSupported markdown files =
    let documents = map read_document markdown in
    let citations = citations_in documents files in
    let (counted, judged) = resolve_onto-counts documents empty_report citations in
    (
      omega (arith, counted, empty_total),
      elim (IsSupported-or_not documents citations) [
        | inl (h, stand) ↦ inl (rw (main, check, judged, h) refl, stand)
        | inr (h, fails) ↦ inr (rw (main, check, judged, h) refl, fails)
      ],
    )
  where
    empty_total : total empty_report ≡ 0
    empty_total = refl
