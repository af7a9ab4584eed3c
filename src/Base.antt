-- ===== src/Base.antt =====
-- Names and helpers that every other module shares: the libraries' names, passed on, and the
-- Boolean tests, lists, integers, bits and results of the children.
mod Test
mod Lists
mod Order
mod Table
mod Errors
pub mod Int
pub mod Bits
pub mod Text
unfoldable pub use Test.*
unfoldable pub use Lists.*
unfoldable pub use Table.*
pub use Order.*
unfoldable pub use Errors.*
pub use Prim.Native.Nat.{ℕ, zero, suc, ◌+◌, ◌-◌, ◌*◌, ◌/◌, ◌%◌, ◌^◌, ◌≤◌, ◌<◌, min, max}
pub use mathlib.Core.Path.{◌≡◌, refl, sym, ap, ◌∙◌}
pub use mathlib.Core.Logic.{◌≢◌, ◌↔◌, ◌⊎◌, inl, inr}
pub use mathlib.Core.Bool.{Bool, true, false, not, ◌&&◌, ◌||◌}
pub use mathlib.Core.Option.{Option, none, some}
pub use mathlib.Core.List.{List, [], ◌∷◌, ◌++◌, append-nil, append_assoc}
pub use native.Mathlib.Omega.{arith}
