-- ===== src/Tools/Citations.antt =====
-- tools/check_citations.py: finding the citations of a text, the sections of a document, and the
-- report. Walking the file system is a parameter: the files arrive in the order of the globs.
use review_signal.Base.{
  ℕ, ◌+◌, Bool, true, false, not, ◌&&◌, ◌||◌, Option, none, some, List, [], ◌∷◌, ◌++◌, leb,
  if◌then◌else◌, length, ◌==◌, Text, codes, is_space, strip_left, strip, nat_eq, list_eq, option_eq,
}
use review_signal.Tools.Scanning.{
  sections_in, documents_in, last, ends_in_prd, wrapped_document, match_heading, match_item,
}

-- `EXEMPT_DOCUMENTS` and `EXCLUDED`
abbrev pub exempt_documents : List Text
exempt_documents = codes "PRD.md" ∷ []

abbrev pub excluded : List Text
excluded = codes "tests/tools/test_check_citations.py" ∷ []

-- `Citation`
pub record Citation : Type 0 where
  pub line : ℕ
  pub section : Text
  pub document : Option Text
  pub path : Text

-- `Report`
pub record Report : Type 0 where
  pub ok_list : List Citation
  pub broken : List Citation
  pub exempt : List Citation
  pub skipped : List Citation
  pub unattributed : List Citation

abbrev pub empty_report : Report
empty_report = record { ok_list = []; broken = []; exempt = []; skipped = []; unattributed = [] }

-- `total` and `failed`
unfoldable pub total : Report → ℕ
total r =
    length r.ok_list + length r.broken + length r.exempt + length r.skipped + length r.unattributed

abbrev pub is_empty : List Citation → Bool
is_empty [] = true
is_empty (c ∷ cs) = false

unfoldable pub has_failed : Report → Bool
has_failed r = not (is_empty r.broken) || not (is_empty r.unattributed)

-- `_document_in`
unfoldable pub document_in : Text → Option Text
unfolding documents_in last
document_in t = last (documents_in 0 [] t)

abbrev pub or_else : Option Text → Option Text → Option Text
or_else (some t) other = some t
or_else none other = other

-- The document that a `§` belongs to: by the text in front of it, the line above, and the document
-- that the text itself is.
unfoldable pub attribute : (self_document above : Option Text) → (before : Text) → Option Text
unfolding document_in ends_in_prd wrapped_document strip_left is_space
attribute self_document above before =
    let shorthand : Option Text = if ends_in_prd before then some (codes "PRD.md") else none in
    let wrapped : Option Text = elim above [
      | none ↦ none
      | some line ↦ if strip_left is_space before == [] then wrapped_document line else none
    ] in
    or_else (document_in before) (or_else shorthand (or_else wrapped self_document))

-- The citations of one line.
unfoldable pub cite :
    (self_document above : Option Text) → (number : ℕ) → List (Text × Text) → List Citation
unfolding attribute
cite self_document above number [] = []
cite self_document above number ((before, section) ∷ rest) =
    record {
      line = number;
      section = section;
      document = attribute self_document above before;
      path = [];
    }
    ∷ cite self_document above number rest

-- `parse_citations` on the lines: the number of the next one, and the one above it.
unfoldable pub parse_lines :
    (self_document : Option Text) → (number : ℕ) → (above : Option Text) → List Text → List Citation
unfolding cite sections_in
parse_lines self_document number above [] = []
parse_lines self_document number above (line ∷ rest) =
    cite self_document above number (sections_in [] line)
    ++ parse_lines self_document (number + 1) (some line) rest

-- The line breaks of `str.splitlines`, but for the second half of a `\r\n`.
abbrev pub is_line_break : ℕ → Bool
is_line_break c =
    (leb 10 c && leb c 13) || (leb 28 c && leb c 30) || c == 133 || c == 8232 || c == 8233

-- `str.splitlines`: the line so far, whether the last character was `\r`, and the text.
unfoldable pub split_lines : (line : Text) → (returned : Bool) → Text → List Text
split_lines [] returned [] = []
split_lines (l ∷ ls) returned [] = (l ∷ ls) ∷ []
split_lines line returned (c ∷ cs) =
    let fresh = split_lines [] (c == 13) cs in
    let longer = split_lines (line ++ c ∷ []) false cs in
    let second_half = split_lines line false cs in
    if returned && c == 10 then second_half else if is_line_break c then line ∷ fresh else longer

-- `parse_citations`
unfoldable pub parse_citations : (text_body : Text) → (self_document : Option Text) → List Citation
unfolding parse_lines split_lines
parse_citations text_body self_document =
    parse_lines self_document 1 none (split_lines [] false text_body)

-- The titles of one document by section number, and an assignment to a key.
abbrev pub Titles : Type 0
Titles = List (Text × Text)

unfoldable pub put_title : Text → Text → Titles → Titles
put_title key title [] = (key, title) ∷ []
put_title key title ((k, t) ∷ rest) =
    let behind = put_title key title rest in if k == key then (k, title) ∷ rest else (k, t) ∷ behind

unfoldable pub get_title : Text → Titles → Option Text
get_title key [] = none
get_title key ((k, t) ∷ rest) = if k == key then some t else get_title key rest

-- ``strip("*` ").strip()``
abbrev pub bare_title : Text → Text
bare_title t = strip is_space (strip (λ c. c == b'*' || c == 96 || c == b' ') t)

-- The loop of `section_titles`: the heading that is open, and what is left.
unfoldable pub titles_from : (section : Text) → Titles → List Text → Titles
unfolding match_heading match_item put_title strip is_space
titles_from section titles [] = titles
titles_from section titles (line ∷ rest) = elim (match_heading line) [
  | some heading ↦ titles_from heading.0 (put_title heading.0 (bare_title heading.1) titles) rest
  | none ↦ elim (match_item line) [
    | none ↦ titles_from section titles rest
    | some item ↦
        titles_from section
          (if section == []
            then titles
            else put_title (section ++ b'.' ∷ item.0) (bare_title item.1) titles)
          rest
  ]
]

-- `section_titles`
unfoldable pub section_titles : Text → Titles
unfolding titles_from split_lines
section_titles markdown = titles_from [] [] (split_lines [] false markdown)
