-- ===== src/Prelude.antt =====
-- The names that the modules share: the libraries', passed on, with the tests, list functions, texts, integers
-- and association lists of the children.
pub mod Tests
pub mod Lists
pub mod Texts
pub mod Maps
pub mod Ints
pub mod Sorting
pub mod Backward
pub use Tests.*
pub use Lists.*
pub use Ints.*
pub use Sorting.*
unfoldable pub use Backward.*
unfoldable pub use Texts.*
unfoldable pub use Maps.*
pub use Prim.Native.Nat.{ℕ, zero, suc, ◌+◌, ◌-◌, ◌*◌, ◌/◌, ◌%◌, ◌≤◌, ◌<◌}
pub use mathlib.Core.Path.{◌≡◌, refl, sym, ap, ◌∙◌}
pub use mathlib.Core.Logic.{◌≢◌, ◌↔◌, ◌⊎◌, inl, inr}
pub use mathlib.Core.Bool.{Bool, true, false, not, ◌&&◌, ◌||◌}
pub use mathlib.Core.Option.{Option, none, some}
pub use mathlib.Core.List.{List, [], ◌∷◌, ◌++◌, map}
pub use native.Mathlib.Omega.{arith}
