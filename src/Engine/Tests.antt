-- ===== src/Engine/Tests.antt =====
-- A forest of two trees over the same three samples.
use monya.Prelude.{ℕ, refl, true, List, [], ◌∷◌, arith, Returns}
use monya.Samples.{nat_scalar, nat-IsOrdered}
use monya.Params.{mem}
use monya.Params.Tests.{threaded}
use monya.NnVector
use monya.NnVector.Refinement.{create-Represents}
use monya.IndexVector.{IndexVal}
use monya.Query.{ProximityQuery}
use monya.KdTree.Traversal.FullTree.{FullTree}
use monya.KdTree.Traversal.Nearest.{HasLists}
use monya.KdTree.Traversal.Tests.{points, matrix, small_tree, small_mem, small_tree-IsSearchable}
use monya.Engine.{ComputeEngine, query}
use monya.Engine.Forest.{KdTreeProgram, find, AreNearest, query-AreNearest}

abbrev two_trees : ComputeEngine (KdTreeProgram ℕ)
two_trees = record {
  forest =
      record { mem = small_mem; root_ = 1; tree_id = 0 }
      ∷ record { mem = small_mem; root_ = 1; tree_id = 1 }
      ∷ [];
  params = threaded mem;
}

abbrev shapes : List (FullTree ℕ)
shapes = small_tree ∷ small_tree ∷ []

abbrev forest_query : ProximityQuery ℕ
forest_query = record {
  k = 2;
  qsample = record { data_ = 5 ∷ 5 ∷ [] };
  result = NnVector.create nat_scalar 2 ∷ NnVector.create nat_scalar 2 ∷ [];
}

forest_query-HasLists : HasLists nat_scalar 2 (5 ∷ 5 ∷ []) ([] ∷ [] ∷ []) forest_query
unfolding NnVector.create
forest_query-HasLists = record {
  bound = refl;
  sample_ = refl;
  lists = (create-Represents nat_scalar 2, refl, (create-Represents nat_scalar 2, refl, tt));
}

query-AreNearest_example :
    Returns
      (λ u.
        (after : List (List (IndexVal ℕ))) × HasLists nat_scalar 2 (5 ∷ 5 ∷ []) after u
        × AreNearest nat_scalar 4 matrix 2 (5 ∷ 5 ∷ []) after 0 two_trees.forest shapes)
      (query (find nat_scalar 4 matrix) two_trees forest_query)
query-AreNearest_example =
    query-AreNearest nat_scalar 4 matrix nat-IsOrdered points true 2 (5 ∷ 5 ∷ []) (omega arith)
      two_trees shapes ([] ∷ [] ∷ []) forest_query
      (
        small_tree-IsSearchable,
        refl,
        refl,
        omega arith,
        (small_tree-IsSearchable, refl, refl, omega arith, tt),
      )
      (refl, (refl, tt)) forest_query-HasLists
