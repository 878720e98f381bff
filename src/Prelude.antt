-- ===== src/Prelude.antt =====
-- Shared names: those of the libraries, passed on, and the helpers that the components share.
mod Tests
mod Lists
mod Text
mod Raise
pub mod Value
pub mod Distinct
pub mod Keyed
pub mod Floats
pub mod Sorting
pub mod Strings
pub mod Order
pub mod Groups
pub mod Matched
pub use Tests.*
pub use Lists.*
pub use Text.*
unfoldable pub use Text.{decimal, zero_padded}
pub use Raise.*
pub use Prim.Native.Nat.{ℕ, zero, suc, ◌+◌, ◌-◌, ◌*◌, ◌/◌, ◌%◌, ◌^◌, ◌≤◌, ◌<◌}
pub use Prim.Native.String.{String}
pub use mathlib.Core.Path.{◌≡◌, refl, sym, ap, ◌∙◌, subst}
pub use mathlib.Core.Logic.{◌≢◌, ◌↔◌, ◌⊎◌, inl, inr}
pub use mathlib.Core.Bool.{Bool, true, false, not, ◌&&◌, ◌||◌}
pub use mathlib.Core.Option.{Option, none, some}
pub use mathlib.Core.List.{List, [], ◌∷◌, ◌++◌, map}
pub use native.Mathlib.Omega.{arith}
pub use text.Mathlib.Text.{◌==◌, starts_with}
pub use text.Mathlib.TextEquality.{eq_iff}
pub use text.Mathlib.TextPositions.{eq_refl}
