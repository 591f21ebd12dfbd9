-- ===== src/Base.antt =====
-- Names that every module of the library shares: the libraries', passed on, and those of the
-- children for tests, lists, options and signed integers.
mod Tests
mod Lists
mod Int
mod Float
mod Strings
mod Bits
mod Results
mod Exact
mod Trim
pub use Tests.*
pub use Lists.*
pub use Float.*
unfoldable pub use Strings.*
unfoldable pub use Bits.*
unfoldable pub use Trim.*
pub use Exact.*
pub use Results.*
unfoldable pub use Int.*
pub use Prim.Native.Nat.{
  ℕ, zero, suc, ◌+◌, ◌-◌, ◌*◌, ◌/◌, ◌%◌, ◌^◌, ◌≤◌, ◌<◌, min, max, bit_and, bit_or,
}
pub use mathlib.Core.Path.{◌≡◌, refl, sym, ap, subst, ◌∙◌}
pub use mathlib.Core.Logic.{◌≢◌, ◌↔◌, ◌⊎◌, inl, inr}
pub use mathlib.Core.Bool.{Bool, true, false, not, ◌&&◌, ◌||◌}
pub use mathlib.Core.Option.{Option, none, some}
pub use mathlib.Core.List.{List, [], ◌∷◌, ◌++◌, map}
pub use native.Mathlib.Omega.{arith}
