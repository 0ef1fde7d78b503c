-- ===== src/Base.antt =====
-- The names that the other modules share: the library's, passed on, and those of the children
-- (Boolean tests, exceptions, integers, lists over the native numbers, texts, floating point, sorting).
mod Tests
mod Lists
mod Exceptions
pub mod Int
pub mod Text
pub mod Decimal
pub mod Floats
pub mod Sets
pub mod Sort
pub use Tests.*
pub use Lists.*
pub use Exceptions.*
pub use Prim.Native.Nat.{ℕ, zero, suc, ◌+◌, ◌-◌, ◌*◌, ◌/◌, ◌%◌, ◌^◌, ◌≤◌, ◌<◌, min, max}
pub use Prim.Native.String.{String}
pub use mathlib.Core.Path.{◌≡◌, refl, sym, ap, ap₂, subst, ◌∙◌}
pub use mathlib.Core.Logic.{◌≢◌, ◌↔◌, ◌⊎◌, inl, inr}
pub use mathlib.Core.Bool.{Bool, true, false, ◌&&◌, ◌||◌, not}
pub use mathlib.Core.Option.{Option, none, some}
pub use mathlib.Core.List.{
  List, [], ◌∷◌, ◌++◌, map, foldl, append-nil, append_assoc, map-append, Perm, perm_middle,
}
pub use native.Mathlib.Omega.{arith}
unfoldable pub use native.Mathlib.Decide.{dec_lt}
