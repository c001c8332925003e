-- ===== src/Base/Values.antt =====
-- JSON values as Python reads them, `dict.get`, and truth.
use Prim.Native.Nat.{ℕ}
use mathlib.Core.Bool.{Bool, true, false}
use mathlib.Core.Option.{Option, none, some}
use mathlib.Core.List.{List, [], ◌∷◌}
use review_signal.Base.Tests.{if◌then◌else◌}
use review_signal.Base.Equality.{◌==◌, nat_eq, list_eq}
use review_signal.Base.Texts.{Text}

-- `negsuc n` is -(n + 1).
pub data ℤ : Type 0 where
  pos : ℕ → ℤ
  negsuc : ℕ → ℤ

mutual
  pub data Json : Type 0 where
    null : Json
    boolean : Bool → Json
    integer : ℤ → Json
    -- A float, as digits and the number of places behind the point.
    decimal : ℤ → ℕ → Json
    text : Text → Json
    array : Items → Json
    object : Fields → Json

  pub data Items : Type 0 where
    nil : Items
    cons : Json → Items → Items

  -- A dict in insertion order.
  pub data Fields : Type 0 where
    end : Fields
    field : Text → Json → Fields → Fields

-- The elements of a list value.
abbrev pub items : Items → List Json
items nil = []
items (cons j js) = j ∷ items js

-- `d.get(key)`, the first entry of that key; a dict has one at most.
abbrev pub get_field : Text → Fields → Option Json
get_field k end = none
get_field k (field j v fs) = if j == k then some v else get_field k fs

is_nonzero : ℤ → Bool
is_nonzero (ℤ.pos n) = if n == 0 then false else true
is_nonzero (ℤ.negsuc n) = true

-- `bool(value)`
unfoldable pub truthy : Json → Bool
unfolding is_nonzero
truthy null = false
truthy (boolean b) = b
truthy (integer n) = is_nonzero n
truthy (decimal n places) = is_nonzero n
truthy (text []) = false
truthy (text (c ∷ s)) = true
truthy (array nil) = false
truthy (array (cons j js)) = true
truthy (object end) = false
truthy (object (field k v fs)) = true

-- `d.get(key)` as a condition, and `d.get(key) or None`.
abbrev pub truthy_field : Text → Fields → Bool
truthy_field k fs = elim (get_field k fs) [ none ↦ false | some j ↦ truthy j ]
