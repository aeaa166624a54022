-- ===== src/Common.antt =====
-- The names that the other modules share: the libraries', passed on, and those of the children.
-- A Go `string` is a list of bytes (`Str`), a Go `map[string]V` an association list (`Dict`), a
-- `time.Time` the nanoseconds since Go's zero instant and a `time.Duration` an integer.
mod Tests
mod Int
mod Lists
mod Text
pub mod Dict
pub mod Sort
pub mod Bits
mod Outcome
pub use Tests.*
pub use Int.*
pub use Lists.*
unfoldable pub use Text.*
pub use Outcome.*
pub use Prim.Native.Nat.{ℕ, zero, suc, ◌+◌, ◌-◌, ◌*◌, ◌/◌, ◌%◌, ◌^◌, ◌≤◌, ◌<◌}
pub use Prim.Native.String.{String}
pub use mathlib.Core.Path.{◌≡◌, refl, sym, ap, ◌∙◌, subst}
pub use mathlib.Core.Logic.{◌≢◌, ◌↔◌, ◌⊎◌, inl, inr}
pub use mathlib.Core.Bool.{Bool, true, false, not, ◌&&◌, ◌||◌}
pub use mathlib.Core.Option.{Option, none, some}
pub use mathlib.Core.List.{List, [], ◌∷◌, ◌++◌, map}
pub use native.Mathlib.Omega.{arith}
