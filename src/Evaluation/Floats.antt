-- ===== src/Evaluation/Floats.antt =====
-- What the metrics use of the machine's floating-point numbers, which are a parameter.
use review_signal.Base.{ℕ, Bool, nat_eq, list_eq, option_eq}

-- `ratio` is `/` of two integers, `over` of a float and an integer.
pub record Floats (F : Type 0) : Type 0 where
  pub zero_float : F
  pub one_float : F
  pub add_float : F → F → F
  pub sub_float : F → F → F
  pub mul_float : F → F → F
  pub div_float : F → F → F
  pub abs_float : F → F
  pub ratio : ℕ → ℕ → F
  pub over : F → ℕ → F
  pub leb_float : F → F → Bool
  pub is_zero_float : F → Bool
