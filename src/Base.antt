-- ===== src/Base.antt =====
-- The names that every component shares: the libraries', passed on, and those of the children:
-- Boolean tests on numbers, lists measured by native numbers, the outcome of a Rust call, and
-- `HashMap` as an association list.
pub mod Tests
pub mod Lists
pub mod Outcome
pub mod HashMap
pub mod HashSet
pub mod Pow
pub use Tests.*
pub use Lists.*
pub use Prim.Native.Nat.{ℕ, zero, suc, ◌+◌, ◌-◌, ◌*◌, ◌/◌, ◌%◌, ◌^◌, ◌≤◌, ◌<◌}
pub use Prim.Native.String.{String}
pub use mathlib.Core.Path.{◌≡◌, refl, sym, ap, ◌∙◌}
pub use mathlib.Core.Logic.{◌≢◌, ◌↔◌, ◌⊎◌, inl, inr}
pub use mathlib.Core.Bool.{Bool, true, false, not, ◌&&◌, ◌||◌}
pub use mathlib.Core.Option.{Option, none, some}
pub use mathlib.Core.List.{List, [], ◌∷◌, ◌++◌, map}
pub use native.Mathlib.Omega.{arith}
