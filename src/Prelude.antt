-- ===== src/Prelude.antt =====
-- The names that all modules share: those of the libraries, passed on, and those of the children.
-- Tests has the Boolean tests, Lists the lists over the native numbers, Strings Python's strings, and
-- Effects the exceptions and the stateful actions.
mod Tests
mod Lists
mod Strings
mod StringLaws
mod Unique
mod Int
mod Effects
pub use Tests.*
pub use Lists.*
unfoldable pub use Strings.*
pub use StringLaws.*
pub use Unique.*
pub use Int.*
pub use Effects.*
pub use Prim.Native.Nat.{ℕ, zero, suc, ◌+◌, ◌-◌, ◌*◌, ◌/◌, ◌%◌, ◌^◌, ◌≤◌, ◌<◌, min, max}
pub use Prim.Native.String.{String}
pub use mathlib.Core.Path.{◌≡◌, refl, sym, ap, ◌∙◌, subst}
pub use mathlib.Core.Logic.{◌≢◌, ◌↔◌, ◌⊎◌, inl, inr}
pub use mathlib.Core.Bool.{Bool, true, false, ◌&&◌, ◌||◌, not}
pub use mathlib.Core.Option.{Option, none, some}
pub use mathlib.Core.List.{List, [], ◌∷◌, ◌++◌, map}
pub use native.Mathlib.Omega.{arith}
