-- ===== src/Prelude.antt =====
-- The names that the components share: library names passed on, tests and lists over the native
-- numbers, and the outcome of code that may stop the simulator.
mod Tests
mod Lists
mod Outcome
mod Ring
mod RingBack
mod Find
mod Bits
mod Int
pub use Tests.*
pub use Lists.*
pub use Outcome.*
pub use Ring.*
pub use Bits.*
pub use Int.*
pub use RingBack.*
unfoldable pub use Find.*
pub use Prim.Native.Nat.{ℕ, zero, suc, ◌+◌, ◌-◌, ◌*◌, ◌/◌, ◌%◌, ◌^◌, ◌≤◌, ◌<◌, max, bit_and}
pub use mathlib.Core.Path.{◌≡◌, refl, sym, ap, ◌∙◌, subst}
pub use mathlib.Core.Logic.{◌≢◌, ◌↔◌, ◌⊎◌, inl, inr}
pub use mathlib.Core.Bool.{Bool, true, false, not, ◌&&◌, ◌||◌}
pub use mathlib.Core.Option.{Option, none, some}
pub use mathlib.Core.List.{List, [], ◌∷◌, ◌++◌, map}
pub use native.Mathlib.Omega.{arith}
