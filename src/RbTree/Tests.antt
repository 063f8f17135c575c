-- ===== src/RbTree/Tests.antt =====
-- `RBTree` at concrete values: two allocated nodes.
use monya.Prelude.{ℕ, ◌≡◌, refl, true, false, out_of_fuel, null, update}
use monya.Samples.{nat_scalar, nat-IsOrdered}
use monya.TreeMemory.{right_child}
use monya.RbTree.{RbTree, insert_at}
use monya.RbTree.InsertAt.{insert_at_diverges}

abbrev two_nodes : RbTree ℕ
two_nodes = record {
  mem = record {
    live = update (update (λ p. false) 1 true) 2 true;
    comparator = update (update (λ p. 0) 1 5) 2 3;
    parent = λ p. null;
    left = λ p. null;
    right = λ p. null;
    color = λ p. 0;
  };
  root = 1;
  depth = 0;
}

insert_at_diverges_example : insert_at nat_scalar 100 two_nodes 2 1 right_child ≡ out_of_fuel
insert_at_diverges_example =
    insert_at_diverges nat_scalar nat-IsOrdered 100 two_nodes 2 1 right_child refl refl refl refl
