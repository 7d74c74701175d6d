-- ===== src/Prelude.antt =====
-- The names that the other modules share: the libraries', passed on, and those of the children:
-- tests on numbers, texts as lists of bytes, lists, sorting by a text, and results with errors.
mod Tests
mod Lists
mod Text
pub mod Sort
pub mod Distinct
pub mod Shuffle
pub mod Action
pub mod Finishes
pub mod Looks
pub mod Indexed
pub mod Sorted
mod Errors
pub use Tests.*
pub use Lists.*
unfoldable pub use Text.{Bytes, text, text_eq, text_leb, contains, join, starts_with, is_empty}
pub use Text.{
  text_eq_iff, text_eq_refl, contains-append, All-contains, All-of_contains, text_eq-false,
}
pub use Errors.*
pub use Prim.Native.Nat.{ℕ, zero, suc, ◌+◌, ◌-◌, ◌*◌, ◌/◌, ◌%◌, ◌^◌, ◌≤◌, ◌<◌}
pub use mathlib.Core.Path.{◌≡◌, refl, sym, ap, ◌∙◌}
pub use mathlib.Core.Logic.{◌≢◌, ◌↔◌, ◌⊎◌, inl, inr}
pub use mathlib.Core.Bool.{Bool, true, false, not, ◌&&◌, ◌||◌}
pub use mathlib.Core.Option.{Option, none, some}
pub use mathlib.Core.List.{List, [], ◌∷◌, ◌++◌, map}
pub use native.Mathlib.Omega.{arith}
