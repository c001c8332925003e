-- ===== src/Base/Decimal.antt =====
-- `str(n)` of a natural number, and that it tells numbers apart.
use Prim.Native.Nat.{ℕ, zero, suc, ◌+◌, ◌-◌, ◌*◌, ◌/◌, ◌%◌, ◌<◌}
use review_signal.Base.Tests.{ltb}
use mathlib.Core.Path.{◌≡◌, refl, sym, ◌∙◌, ap}
use mathlib.Core.Bool.{Bool, true, false}
use mathlib.Core.List.{[], ◌∷◌, ◌++◌}
use native.Mathlib.Omega.{arith}
use review_signal.Base.Texts.{Text}
use review_signal.Base.Tests.{if◌then◌else◌}

-- The decimal digits of `n`, on fuel above `n`.
unfoldable pub digits : ℕ → ℕ → Text
digits zero n = []
digits (suc fuel) n =
    let rest = digits fuel (n / 10) in
    if ltb n 10 then (48 + n) ∷ [] else rest ++ (48 + n % 10) ∷ []

unfoldable pub decimal_text : ℕ → Text
unfolding digits
decimal_text n = digits (suc n) n

unfoldable pub value_from : ℕ → Text → ℕ
value_from acc [] = acc
value_from acc (d ∷ ds) = value_from (acc * 10 + (d - 48)) ds

value-snoc :
    (acc d : ℕ) (t : Text) → value_from acc (t ++ d ∷ []) ≡ value_from acc t * 10 + (d - 48)
unfolding value_from
value-snoc acc d [] = refl
value-snoc acc d (c ∷ t) = value-snoc (acc * 10 + (c - 48)) d t

pub value-digits : (fuel n : ℕ) → n < fuel → value_from 0 (digits fuel n) ≡ n
unfolding digits value_from
value-digits zero n lt = omega (arith, lt)
value-digits (suc fuel) n lt =
    let ih = value-digits fuel (n / 10) in
    let last = value-snoc 0 (48 + n % 10) (digits fuel (n / 10)) in step (ltb n 10) refl ih last
  where
    step :
        (b : Bool)
        → ltb n 10 ≡ b
        → (n / 10 < fuel → value_from 0 (digits fuel (n / 10)) ≡ n / 10)
        → value_from 0 (digits fuel (n / 10) ++ (48 + n % 10) ∷ [])
          ≡ value_from 0 (digits fuel (n / 10)) * 10 + (48 + n % 10 - 48)
        → value_from 0 (if b then (48 + n) ∷ [] else digits fuel (n / 10) ++ (48 + n % 10) ∷ []) ≡ n
    step true e ih last = omega arith
    step false e ih last =
        let small : n / 10 < fuel = ground (arith, e, lt) in omega (arith, last, ih small)

pub decimal_text-injective : (m n : ℕ) → decimal_text m ≡ decimal_text n → m ≡ n
unfolding decimal_text
decimal_text-injective m n e =
    sym (value-digits (suc m) m (omega arith))
    ∙ (ap (value_from 0) e ∙ value-digits (suc n) n (omega arith))
