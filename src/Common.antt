-- ===== src/Common.antt =====
-- The names that the other modules share: the libraries', passed on, and those of the children.
mod Tests
mod Lists
mod Prefixes
mod Filters
mod Texts
pub mod Dicts
mod Results
pub mod Sorting
pub mod Groups
pub mod Indexes
mod Stamps
mod Schemas
mod Running
pub mod Actions
unfoldable pub use Running.{running}
pub use Tests.*
unfoldable pub use Lists.*
unfoldable pub use Texts.*
pub use Filters.*
pub use Prefixes.*
pub use Results.*
unfoldable pub use Schemas.*
pub use Stamps.*
pub use Prim.Native.Nat.{ℕ, zero, suc, ◌+◌, ◌-◌, ◌*◌, ◌/◌, ◌%◌, ◌^◌, ◌≤◌, ◌<◌, min, max}
pub use mathlib.Core.Path.{◌≡◌, refl, sym, ap, subst, ◌∙◌}
pub use mathlib.Core.Logic.{◌≢◌, ◌↔◌, ◌⊎◌, inl, inr}
pub use mathlib.Core.Bool.{Bool, true, false, not, ◌&&◌, ◌||◌}
pub use mathlib.Core.Option.{Option, none, some}
pub use mathlib.Core.List.{List, [], ◌∷◌, ◌++◌, map}
pub use native.Mathlib.Omega.{arith}
