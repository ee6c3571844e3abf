-- ===== src/Base.antt =====
-- The names that the other modules share: the libraries', passed on, and the tests, texts, maps
-- and lists of the children.
mod Tests
mod Texts
mod Lists
mod Maps
mod Integers
mod Sorting
mod Sorted
mod Tally
mod Keys
mod Strings
pub use Tests.*
unfoldable pub use Texts.*
unfoldable pub use Lists.*
pub use Strings.Trimming.*
unfoldable pub use Strings.*
unfoldable pub use Keys.*
unfoldable pub use Tally.*
unfoldable pub use Integers.*
unfoldable pub use Sorting.*
pub use Sorted.*
unfoldable pub use Maps.*
pub use Prim.Native.Nat.{ℕ, zero, suc, ◌+◌, ◌-◌, ◌*◌, ◌/◌, ◌%◌, ◌^◌, ◌≤◌, ◌<◌, min}
pub use mathlib.Core.Path.{◌≡◌, refl, sym, ap, subst, ◌∙◌}
pub use mathlib.Core.Logic.{◌≢◌, ◌↔◌, ◌⊎◌, inl, inr}
pub use mathlib.Core.Bool.{Bool, true, false, not, ◌&&◌, ◌||◌}
pub use mathlib.Core.Option.{Option, none, some}
pub use mathlib.Core.List.{List, [], ◌∷◌, ◌++◌, map}
pub use native.Mathlib.Omega.{arith}
unfoldable pub use native.Mathlib.Decide.{dec_lt, dec_le, ℕ_discrete}
