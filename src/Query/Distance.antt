-- ===== src/Query/Distance.antt =====
-- The distance between two samples is computed where both have the entries that it reads.
use monya.Prelude.{ℕ, zero, suc, ◌≤◌, arith, List, [], ◌∷◌, Returns, Scalar, length}
use monya.Query.{sum_squares}

module _ {D : Type 0} (s : Scalar D) where
  pub sum_squares-Returns :
      (n : ℕ) (arr other : List D) (res : D)
      → n ≤ length arr
      → n ≤ length other
      → Returns (λ _. Unit {0}) (sum_squares s n arr other res)
  unfolding sum_squares
  sum_squares-Returns zero arr other res h k = tt
  sum_squares-Returns (suc n) [] other res h k = absurd (omega arith)
  sum_squares-Returns (suc n) (a ∷ arr) [] res h k = absurd (omega arith)
  sum_squares-Returns (suc n) (a ∷ arr) (b ∷ other) res h k =
      sum_squares-Returns n arr other _ (omega arith) (omega arith)
