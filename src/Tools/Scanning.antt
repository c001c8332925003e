-- ===== src/Tools/Scanning.antt =====
-- The regular expressions of tools/check_citations.py, each as the scan that it stands for. `\d` and
-- `\w` are read of ASCII, where the tool's own documents stay.
use review_signal.Base.{
  ℕ, zero, suc, Bool, true, false, not, ◌&&◌, ◌||◌, Option, none, some, List, [], ◌∷◌, ◌++◌, leb,
  if◌then◌else◌, length, drop, ◌==◌, Text, codes, is_space, strip_left, strip_right, is_digit,
  nat_eq, list_eq, option_eq,
}

-- `c + …` of a pair's first part.
abbrev pub prepend : ℕ → Text × Text → Text × Text
prepend c (t, rest) = (c ∷ t, rest)

-- The longest start whose characters pass a test, and what stands behind it.
unfoldable pub span : (ℕ → Bool) → Text → Text × Text
span p [] = ([], [])
span p (c ∷ cs) = if p c then prepend c (span p cs) else ([], c ∷ cs)

unfoldable pub starts_with : Text → Text → Bool
starts_with [] t = true
starts_with (p ∷ ps) [] = false
starts_with (p ∷ ps) (c ∷ cs) = p == c && starts_with ps cs

abbrev pub digit_first : Text → Bool
digit_first [] = false
digit_first (c ∷ cs) = is_digit c

-- `\d+(?:\.\d+)*` from a digit on, and what stands behind it.
unfoldable pub section_number : Text → Text × Text
section_number [] = ([], [])
section_number (c ∷ cs) =
    if is_digit c || (c == b'.' && digit_first cs)
    then prepend c (section_number cs)
    else ([], c ∷ cs)

-- `_SECTION.finditer`: for each match, the line in front of it and its number.
unfoldable pub sections_in : (before line : Text) → List (Text × Text)
unfolding section_number
sections_in before [] = []
sections_in before (c ∷ cs) =
    let rest = sections_in (before ++ c ∷ []) cs in
    if c == 167 && digit_first cs then (before, (section_number cs).0) ∷ rest else rest

-- `[A-Za-z0-9_-]`
abbrev pub is_name_character : ℕ → Bool
is_name_character c =
    (leb b'A' c && leb c b'Z') || (leb b'a' c && leb c b'z') || is_digit c || c == b'_' || c == b'-'

-- `_DOCUMENT.findall`: characters to skip, the name so far, and the text.
unfoldable pub documents_in : ℕ → (name : Text) → Text → List Text
unfolding starts_with
documents_in skip name [] = []
documents_in (suc skip) name (c ∷ cs) = documents_in skip [] cs
documents_in zero name (c ∷ cs) =
    let longer = documents_in zero (name ++ c ∷ []) cs in
    let behind = documents_in 2 [] cs in
    let none_here = documents_in zero [] cs in
    if is_name_character c
    then longer
    else if c == b'.' && not (name == []) && starts_with (codes "md") cs
    then (name ++ codes ".md") ∷ behind
    else none_here

unfoldable pub last : List Text → Option Text
last [] = none
last (t ∷ []) = some t
last (t ∷ u ∷ rest) = last (u ∷ rest)

unfoldable pub reverse_onto : Text → Text → Text
reverse_onto [] done = done
reverse_onto (c ∷ cs) done = reverse_onto cs (c ∷ done)

abbrev pub is_word_character : ℕ → Bool
is_word_character c =
    (leb b'A' c && leb c b'Z') || (leb b'a' c && leb c b'z') || is_digit c || c == b'_'

abbrev pub word_first : Text → Bool
word_first [] = false
word_first (c ∷ cs) = is_word_character c

-- `_PRD_SHORTHAND.search`, on the text read backwards.
unfoldable pub ends_in_prd : Text → Bool
unfolding starts_with reverse_onto strip_left is_space
ends_in_prd before =
    let back = strip_left is_space (reverse_onto before []) in
    starts_with (codes "DRP") back && not (word_first (drop 3 back))

-- The test of `` [`)\s] ``.
abbrev pub is_wrapping : ℕ → Bool
is_wrapping c = c == 96 || c == b')' || is_space c

-- `_WRAPPED_DOCUMENT.search`, its group, on the text read backwards.
unfoldable pub wrapped_document : Text → Option Text
unfolding starts_with reverse_onto span
wrapped_document line =
    let back = strip_left is_wrapping (reverse_onto line []) in
    let name = reverse_onto (span is_name_character (drop 3 back)).0 [] in
    if starts_with (codes "dm.") back && not (name == []) then some (name ++ codes ".md") else none

-- `\s+(.+?)\s*$`, its group: a body, or else a last space that is taken for one.
unfoldable pub spaced_body : Text → Option Text
unfolding span
spaced_body t =
    let (space, body) = span is_space t in
    elim (strip_right is_space body) [
      | [] ↦ if leb 2 (length space) then some (codes " ") else none
      | c ∷ cs ↦ if leb 1 (length space) then some (c ∷ cs) else none
    ]

-- A `\\?` or `\.?` in front.
abbrev pub skip_one : ℕ → Text → Text
skip_one c [] = []
skip_one c (d ∷ ds) = if c == d then ds else d ∷ ds

-- `_HEADING.match`: the number and the title.
unfoldable pub match_heading : Text → Option (Text × Text)
unfolding section_number span spaced_body
match_heading line =
    let (hashes, behind) = span (λ c. c == b'#') line in
    let (space, marked) = span is_space behind in
    let numbered = skip_one b'*' (skip_one b'*' marked) in
    let (number, tail) = section_number numbered in
    if leb 1 (length hashes)
      && leb (length hashes) 6
      && leb 1 (length space)
      && digit_first numbered
    then (elim (spaced_body (skip_one b'.' (skip_one 92 tail))) [
      | none ↦ none
      | some title ↦ some (number, title)
    ])
    else none

-- `_LIST_ITEM.match`: the number and the text.
unfoldable pub match_item : Text → Option (Text × Text)
unfolding span spaced_body
match_item line =
    let (number, tail) = span is_digit line in
    if leb 1 (length number) && starts_with (codes ".") tail
    then (elim (spaced_body (drop 1 tail)) [ none ↦ none | some body ↦ some (number, body) ])
    else none
