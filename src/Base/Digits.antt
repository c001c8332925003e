-- ===== src/Base/Digits.antt =====
-- What `str` writes of a number is digits, and `int` reads the number back.
use Prim.Native.Nat.{ℕ, zero, suc, ◌+◌, ◌*◌, ◌-◌, ◌/◌, ◌%◌}
use mathlib.Core.Path.{◌≡◌, refl, ap, ◌∙◌}
use mathlib.Core.Logic.{◌≢◌}
use mathlib.Core.Bool.{Bool, true, false, not}
use mathlib.Core.Option.{some}
use mathlib.Core.List.{[], ◌∷◌, ◌++◌}
use native.Mathlib.Omega.{arith}
use review_signal.Base.Lists.{all}
use review_signal.Base.Texts.{Text}
use review_signal.Base.Decimal.{digits, decimal_text, value_from, value-digits}
use review_signal.Base.Strings.{keep_left, strip_left, strip_right, strip, is_digit, digits_value}

all-snoc :
    (p : ℕ → Bool) (t : Text) (d : ℕ) → all p t ≡ true → p d ≡ true → all p (t ++ d ∷ []) ≡ true
all-snoc p [] d h k = ground arith
all-snoc p (c ∷ t) d h k = ground (arith, all-snoc p t d)

pub all-imp :
    (p q : ℕ → Bool) (t : Text)
    → ((c : ℕ) → p c ≡ true → q c ≡ true)
    → all p t ≡ true
    → all q t ≡ true
all-imp p q [] f h = refl
all-imp p q (c ∷ t) f h = ground (arith, f c, all-imp p q t f)

digits-all : (fuel n : ℕ) → all is_digit (digits fuel n) ≡ true
unfolding digits
digits-all zero n = refl
digits-all (suc fuel) n =
    let last : is_digit (48 + n % 10) ≡ true = ground arith in
    ground (
      arith,
      all-snoc is_digit (digits fuel (n / 10)) (48 + n % 10) (digits-all fuel (n / 10)) last,
    )

pub decimal_text-all : (n : ℕ) → all is_digit (decimal_text n) ≡ true
unfolding decimal_text
decimal_text-all n = digits-all (suc n) n

snoc-nonempty : (t : Text) (d : ℕ) → t ++ d ∷ [] ≢ []
snoc-nonempty [] d e = cc e
snoc-nonempty (c ∷ t) d e = cc e

pub decimal_text-nonempty : (n : ℕ) → decimal_text n ≢ []
unfolding decimal_text digits
decimal_text-nonempty n = ground (arith, snoc-nonempty (digits n (n / 10)) (48 + n % 10))

digits_value-behind :
    (acc : ℕ) (t : Text) → all is_digit t ≡ true → digits_value acc true t ≡ some (value_from acc t)
unfolding digits_value value_from
digits_value-behind acc [] h = refl
digits_value-behind acc (c ∷ t) h = ground (arith, digits_value-behind (acc * 10 + (c - 48)) t)

digits_value-all :
    (t : Text) → t ≢ [] → all is_digit t ≡ true → digits_value 0 false t ≡ some (value_from 0 t)
unfolding digits_value value_from
digits_value-all [] ne h = absurd (ne refl)
digits_value-all (c ∷ t) ne h = ground (arith, digits_value-behind (0 * 10 + (c - 48)) t)

-- `int(str(n))` is `n`.
pub digits_value-decimal_text : (n : ℕ) → digits_value 0 false (decimal_text n) ≡ some n
unfolding decimal_text
digits_value-decimal_text n =
    digits_value-all (decimal_text n) (decimal_text-nonempty n) (decimal_text-all n)
    ∙ ap some (value-digits (suc n) n (omega arith))

strip_left-keeps : (p : ℕ → Bool) (t : Text) → all (λ c. not (p c)) t ≡ true → strip_left p t ≡ t
unfolding strip_left
strip_left-keeps p [] h = refl
strip_left-keeps p (c ∷ t) h = ground arith

strip_right-keeps : (p : ℕ → Bool) (t : Text) → all (λ c. not (p c)) t ≡ true → strip_right p t ≡ t
unfolding strip_right
strip_right-keeps p [] h = refl
strip_right-keeps p (c ∷ []) h = ground arith
strip_right-keeps p (c ∷ d ∷ t) h =
    let rest : all (λ e. not (p e)) (d ∷ t) ≡ true = ground arith in
    ap (keep_left p c) (strip_right-keeps p (d ∷ t) rest)

pub strip-keeps : (p : ℕ → Bool) (t : Text) → all (λ c. not (p c)) t ≡ true → strip p t ≡ t
unfolding strip
strip-keeps p t h = ap (strip_right p) (strip_left-keeps p t h) ∙ strip_right-keeps p t h
