-- ===== src/Base.antt =====
-- Shared notation and helpers: the library names that the other modules use, Boolean tests,
-- lists over the native numbers, signed integers, maps, texts and bytes.
mod Tests
mod Lists
pub mod Search
pub mod Int
pub mod Text
pub mod Assoc
pub mod Bits
pub mod Big
pub mod Exec
pub use Tests.*
unfoldable pub use Tests.{bytes_beq}
pub use Lists.*
pub use Prim.Native.Nat.{ℕ, zero, suc, ◌+◌, ◌-◌, ◌*◌, ◌/◌, ◌%◌, ◌^◌, ◌≤◌, ◌<◌}
pub use Prim.Native.String.{String}
pub use mathlib.Core.Path.{◌≡◌, refl, sym, ap, subst, ◌∙◌}
pub use mathlib.Core.Logic.{◌≢◌, ◌↔◌, ◌⊎◌, inl, inr}
pub use mathlib.Core.Bool.{Bool, true, false, not, ◌&&◌, ◌||◌}
pub use mathlib.Core.Option.{Option, none, some}
pub use mathlib.Core.List.{List, [], ◌∷◌, ◌++◌, map}
pub use native.Mathlib.Omega.{arith}
pub use text.Mathlib.TextEquality.{eq_iff}
