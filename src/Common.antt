-- ===== src/Common.antt =====
-- The names that the components share: the libraries', passed on, Boolean tests and lists over the
-- native numbers, and the outcome of C code that may stop at an `assert`.
mod Tests
mod Lists
mod Outcomes
pub mod ErrorCodes
unfoldable pub use Tests.{first_pass}
pub use Tests.*
pub use Lists.*
pub use Outcomes.*
pub use ErrorCodes.*
pub use Prim.Native.Nat.{ℕ, zero, suc, ◌+◌, ◌-◌, ◌*◌, ◌/◌, ◌%◌, ◌^◌, ◌≤◌, ◌<◌, min, max}
pub use mathlib.Core.Path.{◌≡◌, refl, sym, ap, ◌∙◌}
pub use mathlib.Core.Logic.{◌≢◌, ◌↔◌, ◌⊎◌, inl, inr}
pub use mathlib.Core.Bool.{Bool, true, false, not, ◌&&◌, ◌||◌}
pub use mathlib.Core.Option.{Option, none, some}
pub use mathlib.Core.List.{List, [], ◌∷◌, ◌++◌, map}
pub use native.Mathlib.Omega.{arith}
unfoldable pub use native.Mathlib.Decide.{dec_lt, dec_le, ℕ_discrete}
