-- ===== src/Prelude/Float.antt =====
-- `data_t`, the `float` of common/types.hpp, is a parameter: a type with the operations that the
-- code uses. `IsOrdered` is what IEEE 754 says of `<` and `==` where no value is a NaN: `<` is a
-- strict weak order, and `==` holds exactly where neither value is below the other.
use mathlib.Core.Path.{◌≡◌}
use mathlib.Core.Logic.{◌⊎◌}
use mathlib.Core.Bool.{Bool, true, false, not, ◌&&◌}

pub record Scalar (D : Type 0) : Type 0 where
  pub lt : D → D → Bool
  pub eq : D → D → Bool
  pub zero_value : D
  pub max_value : D
  pub add : D → D → D
  pub sub : D → D → D
  pub mul : D → D → D
  pub sqrt : D → D

pub record IsOrdered {D : Type 0} (s : Scalar D) : Type 0 where
  pub lt_irrefl : (a : D) → s.lt a a ≡ false
  pub lt_trans : (a b c : D) → s.lt a b ≡ true → s.lt b c ≡ true → s.lt a c ≡ true
  pub lt_weak : (a b c : D) → s.lt a c ≡ true → (s.lt a b ≡ true) ⊎ (s.lt b c ≡ true)
  pub eq_lt : (a b : D) → s.eq a b ≡ not (s.lt a b) && not (s.lt b a)
