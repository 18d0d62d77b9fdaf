-- ===== src/Base.antt =====
-- The names that every other module shares: the libraries', passed on, and the helpers of the
-- children on tests, lists, texts and orders.
mod Tests
mod Lists
mod Texts
mod Splits
mod Seen
pub mod Sorting
pub use Tests.*
pub use Seen.*
unfoldable pub use Lists.*
unfoldable pub use Texts.*
unfoldable pub use Splits.*
pub use Prim.Native.Nat.{ℕ, zero, suc, ◌+◌, ◌-◌, ◌*◌, ◌/◌, ◌%◌, ◌^◌, ◌≤◌, ◌<◌, Ordering}
pub use Prim.Native.String.{String}
pub use mathlib.Core.Path.{◌≡◌, refl, sym, ap, ◌∙◌, subst}
pub use mathlib.Core.Logic.{◌≢◌, ◌↔◌, ◌⊎◌, inl, inr}
pub use mathlib.Core.Bool.{Bool, true, false, not, ◌&&◌, ◌||◌}
pub use mathlib.Core.Option.{Option, none, some}
pub use mathlib.Core.List.{List, [], ◌∷◌, ◌++◌, map}
pub use native.Mathlib.Omega.{arith}
