-- ===== src/Base.antt =====
-- What the modules share: the library's names, passed on, with numeric tests, lists and C memory.
mod Tests
mod Lists
mod Memory
mod Copy
mod Text
mod Bits
unfoldable pub use Tests.*
unfoldable pub use Lists.*
unfoldable pub use Memory.*
unfoldable pub use Copy.*
unfoldable pub use Bits.*
unfoldable pub use Text.*
pub use Prim.Native.Nat.{ℕ, zero, suc, ◌+◌, ◌-◌, ◌*◌, ◌/◌, ◌%◌, ◌^◌, ◌≤◌, ◌<◌, min}
pub use mathlib.Core.Path.{◌≡◌, refl, sym, ap, subst, ◌∙◌}
pub use mathlib.Core.Logic.{◌≢◌, ◌↔◌, ◌⊎◌, inl, inr}
pub use mathlib.Core.Bool.{Bool, true, false, not, ◌&&◌, ◌||◌}
pub use mathlib.Core.Option.{Option, none, some}
pub use mathlib.Core.List.{List, [], ◌∷◌, ◌++◌, map}
pub use native.Mathlib.Omega.{arith}
