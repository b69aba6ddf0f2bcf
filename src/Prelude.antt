-- ===== src/Prelude.antt =====
-- What the other modules share: names of the libraries, passed on, tests on numbers, lists and
-- byte strings, signed integers, maps and results.
mod Tests
mod Lists
mod Text
mod Fields
mod Results
mod Maps
pub mod Int
pub mod Bits
pub use Tests.*
pub use Lists.*
unfoldable pub use Text.*
unfoldable pub use Fields.*
pub use Results.*
unfoldable pub use Maps.*
pub use Prim.Native.Nat.{ℕ, zero, suc, ◌+◌, ◌-◌, ◌*◌, ◌/◌, ◌%◌, ◌^◌, ◌≤◌, ◌<◌}
pub use mathlib.Core.Path.{◌≡◌, refl, sym, ap, subst, ◌∙◌}
pub use mathlib.Core.Logic.{◌≢◌, ◌↔◌, ◌⊎◌, inl, inr}
pub use mathlib.Core.Bool.{Bool, true, false, not, ◌&&◌, ◌||◌}
pub use mathlib.Core.Option.{Option, none, some}
pub use mathlib.Core.List.{List, [], ◌∷◌, ◌++◌, map, reverse}
pub use native.Mathlib.Omega.{arith}
