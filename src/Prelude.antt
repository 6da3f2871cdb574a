-- ===== src/Prelude.antt =====
-- The names that all modules share: the libraries' and those of the children. They model no code.
mod Tests
mod Ints
mod Lists
mod Errors
pub use Tests.*
pub use Ints.*
unfoldable pub use Ints.{◌+ℤ◌, ◌-ℤ◌, ◌*ℤ◌, ◌/ℤ◌}
pub use Lists.*
pub use Errors.*
pub use Prim.Native.Nat.{ℕ, zero, suc, ◌+◌, ◌-◌, ◌*◌, ◌/◌, ◌%◌, ◌^◌, ◌≤◌, ◌<◌}
pub use mathlib.Core.Path.{◌≡◌, refl, sym, ap, ◌∙◌, subst}
pub use mathlib.Core.Logic.{◌≢◌, ◌↔◌, ◌⊎◌, inl, inr}
pub use mathlib.Core.Bool.{Bool, true, false, ◌&&◌, ◌||◌, not}
pub use mathlib.Core.Option.{Option, none, some}
pub use mathlib.Core.List.{List, [], ◌∷◌, ◌++◌, map}
pub use native.Mathlib.Omega.{arith}
