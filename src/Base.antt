-- ===== src/Base.antt =====
-- Shared helpers of the development: library names passed on, Boolean tests, lists and options over
-- the native numbers, JavaScript strings as lists of UTF-16 code units, and the statements that a
-- repository sends to its table.
mod Tests
mod Lists
mod Strings
mod Table
mod Rows
pub use Tests.*
pub use Lists.*
unfoldable pub use Strings.*
unfoldable pub use Table.*
pub use Rows.*
pub use Prim.Native.Nat.{ℕ, zero, suc, ◌+◌, ◌-◌, ◌*◌, ◌≤◌, ◌<◌}
pub use Prim.Native.String.{String}
pub use mathlib.Core.Path.{◌≡◌, refl, sym, ap, ◌∙◌}
pub use mathlib.Core.Logic.{◌≢◌, ◌↔◌, ◌⊎◌, inl, inr}
pub use mathlib.Core.Bool.{Bool, true, false, not, ◌&&◌, ◌||◌}
pub use mathlib.Core.Option.{Option, none, some}
pub use mathlib.Core.List.{List, [], ◌∷◌, ◌++◌, map}
pub use native.Mathlib.Omega.{arith}
