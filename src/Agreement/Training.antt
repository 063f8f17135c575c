-- ===== src/Agreement/Training.antt =====
-- A k-d tree program that has been built (src/BinaryTreeProgram.hpp, src/examples/kdtree.cpp) and is
-- then queried, against the brute-force search (src/validate/BruteForcekNN.hpp).
use monya.Prelude.{ℕ, ◌<◌, true, List, Returns, Scalar, IsOrdered}
use monya.IndexVector.{IndexVal, Algorithms}
use monya.IndexVector.Laws.{IsAlgorithms}
use monya.MemoryIo.{MemoryIo}
use monya.NodeView.{NodeView}
use monya.Query.{ProximityQuery}
use monya.BruteForce.{get_nn}
use monya.KdTree.Traversal.{find_neighbors}
use monya.KdTree.Traversal.FullTree
use monya.KdTree.Traversal.FullTree.{nodes}
use monya.KdTree.Traversal.Distance.{IsStored}
use monya.KdTree.Program.{KdHeap, kd_mem}
use monya.Params.{Params}
use monya.TreeProgram.{Program}
use monya.Agreement.{brute, Agrees}

module _ {D : Type 0} (s : Scalar D) (o : IsOrdered s) (a : Algorithms D) (laws : IsAlgorithms s a)
    (blank : NodeView D) (io : MemoryIo D) (d : List D) (st : IsStored io d true)
    (some_row : 0 < io.dim.0) where
  -- what a query finds in the tree of a program, and what the brute-force search finds
  abbrev pub SearchesAgree :
      IndexVal D → ProximityQuery D → List (List (IndexVal D)) → ℕ → ℕ → Program (KdHeap D) → Type 0
  SearchesAgree blank_item q ls tree_id fuel u =
      Returns
        (λ w.
          Returns (Agrees s q ls tree_id w)
            (get_nn s a blank_item (brute s io d) q.qsample.data_ q.k))
        (find_neighbors s fuel io (kd_mem u.nodes) tree_id u.root q)
