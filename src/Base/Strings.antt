-- ===== src/Base/Strings.antt =====
-- The methods of Python's `str` that the program uses, on code points.
use Prim.Native.Nat.{ℕ, ◌+◌, ◌*◌, ◌-◌}
use mathlib.Core.Logic.{◌≢◌}
use mathlib.Core.Option.{Option, none, some}
use mathlib.Core.Path.{◌≡◌, refl}
use mathlib.Core.Bool.{Bool, true, false, not, ◌&&◌, ◌||◌}
use mathlib.Core.List.{List, [], ◌∷◌, ◌++◌}
use native.Mathlib.Omega.{arith}
use review_signal.Base.Tests.{leb, if◌then◌else◌}
use review_signal.Base.Equality.{◌==◌, nat_eq, eq_iff}
use review_signal.Base.Lists.{all}
use review_signal.Base.Texts.{Text}

-- `str.isspace` of one character.
unfoldable pub is_space : ℕ → Bool
is_space c =
    (leb 9 c && leb c 13)
    || (leb 28 c && leb c 32)
    || c == 133
    || c == 160
    || c == 5760
    || (leb 8192 c && leb c 8202)
    || c == 8232
    || c == 8233
    || c == 8239
    || c == 8287
    || c == 12288

-- `str.strip`, of the characters that pass a test.
unfoldable pub strip_left : (ℕ → Bool) → Text → Text
strip_left p [] = []
strip_left p (c ∷ cs) = if p c then strip_left p cs else c ∷ cs

abbrev pub keep_left : (ℕ → Bool) → ℕ → Text → Text
keep_left p c [] = if p c then [] else c ∷ []
keep_left p c (d ∷ ds) = c ∷ d ∷ ds

unfoldable pub strip_right : (ℕ → Bool) → Text → Text
strip_right p [] = []
strip_right p (c ∷ cs) = keep_left p c (strip_right p cs)

unfoldable pub strip : (ℕ → Bool) → Text → Text
unfolding strip_left strip_right
strip p t = strip_right p (strip_left p t)

-- `separator.join(parts)`
unfoldable pub join : Text → List Text → Text
join separator [] = []
join separator (t ∷ []) = t
join separator (t ∷ u ∷ rest) = t ++ (separator ++ join separator (u ∷ rest))

-- `text.partition(c)` without the separator itself: what stands before the first `c`, and what
-- stands behind it, which is empty where there is none.
unfoldable pub partition : ℕ → Text → Text × Text
partition c [] = ([], [])
partition c (d ∷ ds) = if d == c then ([], ds) else (d ∷ (partition c ds).0, (partition c ds).1)

-- `str.isascii`
abbrev pub is_ascii : Text → Bool
is_ascii t = all (λ c. leb c 127) t

pub partition-found :
    (c : ℕ) (before after : Text)
    → all (λ d. not (d == c)) before ≡ true
    → partition c (before ++ c ∷ after) ≡ (before, after)
unfolding partition
partition-found c [] after h = ground arith
partition-found c (d ∷ ds) after h = ground (arith, partition-found c ds after)

-- Where something stands behind the first `c`, the text is its two parts around it.
pub partition-append :
    (c : ℕ) (t : Text) → (partition c t).1 ≢ [] → t ≡ (partition c t).0 ++ c ∷ (partition c t).1
unfolding partition
partition-append c [] h = absurd (h refl)
partition-append c (d ∷ ds) h = ground (arith, partition-append c ds, eq_iff d c)

abbrev pub is_digit : ℕ → Bool
is_digit c = leb 48 c && leb c 57

-- `int(text)` without its white space and sign: digits, with single underscores between them. The
-- digits of other scripts, which Python reads too, are left out.
unfoldable pub digits_value : ℕ → Bool → Text → Option ℕ
digits_value acc behind_digit [] = if behind_digit then some acc else none
digits_value acc behind_digit (c ∷ cs) = elim (is_digit c) [
  | true ↦ digits_value (acc * 10 + (c - 48)) true cs
  | false ↦ elim (c == b'_' && behind_digit) [ true ↦ digits_value acc false cs | false ↦ none ]
]
