-- ===== src/VecBinaryTree.antt =====
-- `VecBinaryTree` of src/structures/VecBinaryTree.hpp and VecBinaryTree.cpp, built with VECNODES: a
-- tree in a vector, in which the children of position `i` belong at `2 i + 1` and `2 i + 2`. Positions
-- are `size_t`.
pub mod Index
pub mod Tests
use monya.Prelude.{
  ℕ, zero, suc, ◌+◌, ◌-◌, ◌*◌, ◌/◌, ◌%◌, ◌^◌, Bool, Option, none, some, List, [], ◌∷◌, ◌++◌, Run,
  ok, throw, fault, runtime_error, not_implemented_exception, ◌>>=◌, ◌==◌, if◌then◌else◌, length,
  get_elem?, set,
}
use monya.TreeMemory.{BChild, left_child, right_child}

-- the comparator and the `vecpos` of a `BinaryNode`
pub record VecNode (D : Type 0) : Type 0 where
  pub comparator : D
  pub vecpos : ℕ

pub record VecBinaryTree (D : Type 0) : Type 0 where
  pub nodes : List (VecNode D)

-- `get_child_idx`, and `compute_idx`
unfoldable pub get_child_idx : ℕ → BChild → ℕ
get_child_idx parent_idx left_child = (2 * parent_idx + 1) % 2 ^ 64
get_child_idx parent_idx right_child = (2 * parent_idx + 2) % 2 ^ 64

-- `get_parent_idx`: `node_idx - 1` wraps at 0.
unfoldable pub get_parent_idx : ℕ → ℕ
get_parent_idx node_idx = ((node_idx + 2 ^ 64 - 1) % 2 ^ 64) / 2

module _ {D : Type 0} where
  pub create : VecBinaryTree D
  create = record { nodes = [] }

  pub empty : VecBinaryTree D → Bool
  empty t = length t.nodes == 0

  pub get_nnodes : VecBinaryTree D → ℕ
  get_nnodes t = length t.nodes

  unfoldable pub get_at_idx : VecBinaryTree D → ℕ → Run (VecNode D)
  get_at_idx t node_idx = elim (get_elem? t.nodes node_idx) [ none ↦ fault | some n ↦ ok n ]

  pub get_root : VecBinaryTree D → Run (VecNode D)
  unfolding get_at_idx
  get_root t = get_at_idx t 0

  pub set_root : VecBinaryTree D → VecNode D → VecBinaryTree D
  set_root t node = record t {
    nodes = if length t.nodes == 0 then t.nodes ++ node ∷ [] else set t.nodes 0 node;
  }

  -- `insert_at(new_node, parent_idx, pos)`: the position goes into `vecpos`, the node to the back
  unfoldable pub insert_at : VecBinaryTree D → VecNode D → ℕ → BChild → VecBinaryTree D
  insert_at t new_node parent_idx pos = record t {
    nodes = t.nodes ++ record new_node { vecpos = get_child_idx parent_idx pos } ∷ [];
  }

  -- `insert_at(new_node, node, pos)`
  pub insert_at_node : VecBinaryTree D → VecNode D → VecNode D → BChild → VecBinaryTree D
  insert_at_node t new_node node pos = insert_at t new_node node.vecpos pos

  pub insert : VecBinaryTree D → VecNode D → Run (VecBinaryTree D)
  insert t node = throw not_implemented_exception

  pub find : VecBinaryTree D → VecNode D → Run (VecNode D)
  find t shell = throw runtime_error
