-- ===== src/Taxonomy/Slug.antt =====
-- `_unique_slug` of services/taxonomy_generation.py. `str.lower` is a parameter.
use review_signal.Base.{
  ℕ, zero, suc, ◌+◌, Bool, true, false, ◌&&◌, ◌||◌, List, [], ◌∷◌, ◌++◌, leb, if◌then◌else◌, length,
  any, ◌==◌, Text, codes, decimal_text, is_space, strip, nat_eq, list_eq, option_eq,
}

-- `[a-z0-9]`
unfoldable pub is_slug_char : ℕ → Bool
is_slug_char c = (leb 97 c && leb c 122) || (leb 48 c && leb c 57)

-- `_NON_SLUG.sub("_", …)`; the first argument tells whether a run is under way.
unfoldable pub collapse : Bool → Text → Text
collapse in_run [] = []
collapse in_run (c ∷ cs) = elim (is_slug_char c) [
  | true ↦ c ∷ collapse false cs
  | false ↦ elim in_run [ true ↦ collapse true cs | false ↦ b'_' ∷ collapse true cs ]
]

-- `… or "category"`
abbrev or_category : Text → Text
or_category [] = codes "category"
or_category (c ∷ cs) = c ∷ cs

-- `base`
unfoldable pub slug_base : (Text → Text) → Text → Text
unfolding is_slug_char collapse strip is_space
slug_base lower name =
    or_category (strip (λ c. c == b'_') (collapse false (lower (strip is_space name))))

unfoldable pub is_used : Text → List Text → Bool
is_used slug used = any (λ u. u == slug) used

-- The slug at a value of `suffix`: the bare base at 1.
unfoldable pub candidate : Text → ℕ → Text
unfolding decimal_text
candidate base suffix = if suffix == 1 then base else base ++ b'_' ∷ decimal_text suffix

-- The `while` loop, on fuel.
unfoldable pub next_slug : ℕ → Text → ℕ → List Text → Text
unfolding candidate is_used
next_slug zero base suffix used = candidate base suffix
next_slug (suc fuel) base suffix used =
    let rest = next_slug fuel base (suffix + 1) used in
    if is_used (candidate base suffix) used then rest else candidate base suffix

-- `_unique_slug`: the slug, which the caller adds to `used`.
unfoldable pub unique_slug : (Text → Text) → Text → List Text → Text
unfolding slug_base next_slug
unique_slug lower name used = next_slug (length used) (slug_base lower name) 1 used
