-- ===== src/Common.antt =====
-- Names that every part of the library shares: the libraries' own, passed on, and the helpers of
-- the child modules (Boolean tests, lists measured by native numbers, machine words).
mod Tests
mod Lists
mod Words
pub use Tests.*
pub use Lists.*
pub use Words.*
unfoldable pub use Words.{word}
pub use Prim.Native.Nat.{ℕ, zero, suc, ◌+◌, ◌-◌, ◌*◌, ◌/◌, ◌%◌, ◌^◌, ◌≤◌, ◌<◌}
pub use mathlib.Core.Path.{◌≡◌, refl, sym, ap, ap₂, ◌∙◌}
pub use mathlib.Core.Logic.{◌≢◌, ◌↔◌, ◌⊎◌, inl, inr}
pub use mathlib.Core.Bool.{Bool, true, false, ◌&&◌, ◌||◌, not}
pub use mathlib.Core.Option.{Option, none, some}
pub use mathlib.Core.List.{List, [], ◌∷◌, ◌++◌, map}
pub use native.Mathlib.Omega.{arith}
