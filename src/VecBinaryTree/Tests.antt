-- ===== src/VecBinaryTree/Tests.antt =====
-- A root alone, and a left child's position.
use monya.Prelude.{ℕ, suc, ◌==◌, if◌then◌else◌, ◌<◌, ◌≡◌, [], ◌∷◌, arith, ok, fault, length}
use monya.TreeMemory.{left_child, right_child}
use monya.VecBinaryTree.{
  VecNode, VecBinaryTree, get_child_idx, get_parent_idx, get_at_idx, insert_at,
}
use monya.VecBinaryTree.Index.{get_parent_idx-get_child_idx, insert_at-get_at_idx}

abbrev root_node : VecNode ℕ
root_node = record { comparator = 5; vecpos = 0 }

abbrev root_only : VecBinaryTree ℕ
root_only = record { nodes = root_node ∷ [] }

get_parent_idx-get_child_idx_example :
    (get_parent_idx (get_child_idx 3 left_child) ≡ 3)
    × (get_child_idx 3 right_child ≡ suc (get_child_idx 3 left_child))
    × (3 < get_child_idx 3 left_child)
get_parent_idx-get_child_idx_example = get_parent_idx-get_child_idx 3 left_child (omega arith)

insert_at-get_at_idx_example :
    get_at_idx (insert_at root_only root_node 0 right_child) (get_child_idx 0 right_child) ≡ (
      if length root_only.nodes == get_child_idx 0 right_child
      then ok (record root_node { vecpos = get_child_idx 0 right_child })
      else fault)
insert_at-get_at_idx_example =
    insert_at-get_at_idx root_only root_node 0 right_child (unfold get_child_idx in omega arith)
