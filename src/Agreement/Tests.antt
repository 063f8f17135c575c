-- ===== src/Agreement/Tests.antt =====
-- Both searches over three samples.
use mathlib.Core.List.Perm
use monya.Prelude.{refl, [], ◌∷◌, arith, map, Perm, Returns}
use monya.Samples.{nat_scalar, nat-IsOrdered, nat_algorithms, nat_algorithms-IsAlgorithms}
use monya.IndexVector.{index_val}
use monya.NodeView.{index_range}
use monya.BruteForce.{get_nn}
use monya.KdTree.Traversal.{find_neighbors}
use monya.KdTree.Traversal.FullTree.{samples}
use monya.KdTree.Traversal.Tests.{
  points, matrix, small_tree, small_mem, near_query, near_query-AllRepresent,
  small_tree-IsSearchable,
}
use monya.Agreement.{brute, Agrees, find_neighbors-get_nn}

small_tree-covers : Perm (map (λ iv. iv.index) (samples small_mem small_tree)) (index_range 3 0)
unfolding index_range
small_tree-covers =
    Perm.trans (Perm.cons 2 (Perm.swap 0 1 []))
      (Perm.trans (Perm.swap 0 2 (1 ∷ [])) (Perm.cons 0 (Perm.swap 1 2 [])))

find_neighbors-get_nn_example :
    Returns
      (λ u. Returns (Agrees nat_scalar near_query ([] ∷ []) 0 u) (
        get_nn nat_scalar nat_algorithms
          (index_val 0 0)
          (brute nat_scalar matrix points)
          (5 ∷ 5 ∷ [])
          2))
      (find_neighbors nat_scalar 4 matrix small_mem 0 1 near_query)
find_neighbors-get_nn_example =
    find_neighbors-get_nn nat_scalar nat-IsOrdered nat_algorithms (index_val 0 0) matrix points
      small_mem small_tree near_query ([] ∷ []) 0 4 nat_algorithms-IsAlgorithms
      small_tree-IsSearchable small_tree-covers near_query-AllRepresent refl (omega arith)
      (omega arith) (omega arith) (omega arith)
