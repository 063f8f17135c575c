-- ===== src/Prelude.antt =====
-- The names that the other modules share: the library's, passed on, Boolean tests on the native
-- numbers, lists measured by them, the results of a run, and the interface of `data_t`.
mod Tests
mod Lists
mod Members
mod Pointer
mod Outcome
mod Float
pub use Tests.*
pub use Lists.*
pub use Members.*
pub use Pointer.*
pub use Outcome.*
pub use Float.*
pub use Prim.Native.Nat.{
  ℕ, zero, suc, ◌+◌, ◌-◌, ◌*◌, ◌/◌, ◌%◌, ◌^◌, ◌≤◌, ◌<◌, min, compare, Ordering,
}
pub use mathlib.Core.Path.{◌≡◌, refl, sym, ap, subst, ◌∙◌}
pub use mathlib.Core.Logic.{◌≢◌, ◌↔◌, ◌⊎◌, inl, inr}
pub use mathlib.Core.Bool.{Bool, true, false, not, ◌&&◌, ◌||◌}
pub use mathlib.Core.Option.{Option, none, some}
pub use mathlib.Core.List.{List, [], ◌∷◌, ◌++◌, map, foldl, Perm}
pub use native.Mathlib.Omega.{arith}
