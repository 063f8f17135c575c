-- ===== src/KdTree/Tests.antt =====
-- A root with three samples.
use monya.Prelude.{ℕ, refl, false, [], ◌∷◌, arith, Returns, ok, ◌>>=◌}
use monya.Samples.{nat_scalar, nat-IsOrdered, nat_algorithms, nat_algorithms-IsAlgorithms}
use monya.IndexVector.{index_val}
use monya.NodeView.Tests.{matrix, holder}
use monya.KdTree.{KdNode, run, spawn}
use monya.KdTree.Split.{IsSplit, run-spawn-IsSplit}

abbrev root_node : KdNode ℕ
root_node = record {
  view = record holder {
    data_index = record {
      items = index_val 0 7 ∷ index_val 1 3 ∷ index_val 2 5 ∷ [];
      sorted = false;
    };
  };
  split_dim = 0;
}

run-spawn-IsSplit_example :
    Returns
      (λ (m, l, r). IsSplit nat_scalar matrix root_node m l r)
      (run nat_algorithms root_node >>= λ m.
        spawn nat_scalar matrix 1 holder m >>= λ c. ok (m, c.0, c.1))
run-spawn-IsSplit_example =
    run-spawn-IsSplit nat_scalar nat-IsOrdered nat_algorithms matrix 1 holder root_node
      nat_algorithms-IsAlgorithms (omega arith) (omega arith) refl refl (omega arith)
