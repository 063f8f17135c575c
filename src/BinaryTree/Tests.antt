-- ===== src/BinaryTree/Tests.antt =====
-- `BinaryTree` at concrete values: a root with a left child, and a new node.
use monya.Prelude.{
  ℕ, ◌+◌, ◌<◌, ◌≡◌, refl, true, false, arith, if◌then◌else◌, ok, throw, runtime_error, ◌>>=◌,
  Returns, null, update,
}
use monya.Samples.{nat_scalar, nat-IsOrdered}
use monya.TreeMemory.{Mem}
use monya.BinaryTree.{BinaryTree, insert, find, get_nnodes, echo}
use monya.BinaryTree.Shape.{Tree, leaf, node, has, size, tree_insert}
use monya.BinaryTree.Insert.{Holds, IsNew, insert-tree_insert}
use monya.BinaryTree.Search.{
  IsSearchTree, equivalent, holds_key, find_complete, get_nnodes-size, lines, echo-lines,
}
use monya.BinaryTree.RoundTrip.{insert-find}

abbrev memory : Mem ℕ
memory = record {
  live = update (update (update (λ p. false) 1 true) 2 true) 3 true;
  comparator = update (update (update (λ p. 0) 1 5) 2 3) 3 7;
  parent = update (λ p. null) 2 1;
  left = update (λ p. null) 1 2;
  right = λ p. null;
  color = λ p. 0;
}

abbrev pair : BinaryTree ℕ
pair = record { mem = memory; root = 1; depth = 0; max_depth = 8 }

abbrev pair_tree : Tree ℕ
pair_tree = node (node leaf 2 3 leaf) 1 5 leaf

pair-Holds : Holds pair pair_tree
pair-Holds = record {
  shape = (
    refl,
    omega arith,
    refl,
    refl,
    refl,
    (refl, omega arith, refl, refl, refl, refl, refl),
    refl,
  );
  distinct = (refl, refl, λ a h. refl, (refl, refl, λ a h. refl, tt, tt), tt);
}

pair-IsSearchTree : IsSearchTree nat_scalar pair_tree
pair-IsSearchTree = ((refl, tt, tt), tt, (tt, tt, tt, tt), tt)

third-IsNew : IsNew pair pair_tree 3
third-IsNew = record { live = refl; pos = omega arith; absent = refl }

few : size pair_tree < 9
unfolding size
few = omega arith

insert-tree_insert_example :
    Returns (λ u. Holds u (tree_insert nat_scalar 3 7 pair_tree)) (insert nat_scalar 9 pair 3)
insert-tree_insert_example =
    insert-tree_insert nat_scalar 9 pair pair_tree 3 pair-Holds third-IsNew few

find_complete_example :
    if holds_key nat_scalar 3 pair_tree
    then Returns
        (λ p. (has p pair_tree ≡ true) × (equivalent nat_scalar 3 (memory.comparator p) ≡ true))
        (find nat_scalar 9 pair 3)
    else (find nat_scalar 9 pair 3 ≡ throw runtime_error)
find_complete_example =
    find_complete nat_scalar nat-IsOrdered 9 pair pair_tree 3 pair-Holds pair-IsSearchTree few

insert-find_example :
    Returns
      (λ (u, p).
        (tr : Tree ℕ) × Holds u tr
        × IsSearchTree nat_scalar tr
        × (has p tr ≡ true)
        × (equivalent nat_scalar 7 (u.mem.comparator p) ≡ true))
      (insert nat_scalar 9 pair 3 >>= λ u. find nat_scalar 9 u 7 >>= λ p. ok (u, p))
insert-find_example =
    insert-find nat_scalar nat-IsOrdered 9 pair pair_tree 3 pair-Holds pair-IsSearchTree third-IsNew
      (unfold size in omega arith)

pair_nnodes : get_nnodes 9 memory 1 0 ≡ ok (0 + size pair_tree)
pair_nnodes = get_nnodes-size 9 memory 1 null 0 pair_tree pair-Holds.shape few

echo-lines_example : echo 9 memory 1 0 ≡ ok (lines 0 pair_tree)
echo-lines_example = echo-lines 9 memory 1 null 0 pair_tree pair-Holds.shape few
