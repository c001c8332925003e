-- ===== src/Base.antt =====
-- Names that every module shares: the libraries' names passed on, and the children's helpers.
mod Tests
mod Lists
mod Equality
mod Texts
mod Exceptions
mod Values
mod Decimal
mod Strings
mod Digits
mod Sorting
pub use Tests.*
pub use Lists.*
pub use Equality.*
pub use Texts.*
unfoldable pub use Values.*
unfoldable pub use Decimal.*
unfoldable pub use Strings.*
pub use Digits.*
unfoldable pub use Sorting.*
pub use Exceptions.*
pub use Prim.Native.Nat.{ℕ, zero, suc, ◌+◌, ◌-◌, ◌*◌, ◌/◌, ◌%◌, ◌≤◌, ◌<◌, min}
pub use mathlib.Core.Path.{◌≡◌, refl, sym, ap, ◌∙◌, subst}
pub use mathlib.Core.Logic.{◌≢◌, ◌↔◌, ◌⊎◌, inl, inr}
pub use mathlib.Core.Bool.{Bool, true, false, not, ◌&&◌, ◌||◌}
pub use mathlib.Core.Option.{Option, none, some}
pub use mathlib.Core.List.{List, [], ◌∷◌, ◌++◌, map, Mem, Perm}
pub use native.Mathlib.Omega.{arith}
