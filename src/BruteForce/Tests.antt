-- ===== src/BruteForce/Tests.antt =====
-- Four samples of two dimensions.
use monya.Prelude.{ℕ, ◌≡◌, false, List, [], ◌∷◌, arith, Returns}
use monya.Samples.{nat_scalar, nat-IsOrdered, nat_algorithms, nat_algorithms-IsAlgorithms}
use monya.IndexVector.{index_val}
use monya.BruteForce.{BruteForce, get_nn}
use monya.BruteForce.Distances.{IsComplete, distances}
use monya.BruteForce.Nearest.{IsNearestOf, get_nn-IsNearestOf}
use monya.BruteForce.Few.{get_nn_few}

abbrev four_points : BruteForce ℕ
four_points = record { data_ = 1 ∷ 2 ∷ 8 ∷ 1 ∷ 4 ∷ 6 ∷ 5 ∷ 4 ∷ []; nsamples = 4; nfeatures = 2 }

abbrev centre : List ℕ
centre = 5 ∷ 5 ∷ []

four_points-IsComplete : IsComplete nat_scalar four_points centre
four_points-IsComplete = record { size = omega arith; width = omega arith }

get_nn-IsNearestOf_example :
    Returns
      (IsNearestOf nat_scalar four_points centre 2)
      (get_nn nat_scalar nat_algorithms (index_val 0 0) four_points centre 2)
get_nn-IsNearestOf_example =
    get_nn-IsNearestOf nat_scalar nat-IsOrdered nat_algorithms (index_val 0 0) four_points centre 2
      nat_algorithms-IsAlgorithms four_points-IsComplete (omega arith) (omega arith) (omega arith)

get_nn_few_example :
    Returns
      (λ v. (v.items ≡ distances nat_scalar four_points centre 4 0) × (v.sorted ≡ false))
      (get_nn nat_scalar nat_algorithms (index_val 0 0) four_points centre 4)
get_nn_few_example =
    get_nn_few nat_scalar nat_algorithms (index_val 0 0) four_points centre 4 four_points-IsComplete
      (omega arith) (omega arith)
