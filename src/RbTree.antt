-- ===== src/RbTree.antt =====
-- `RBTree` of src/structures/RBTree.hpp and RBTree.cpp: rotations, insertion and search over linked
-- nodes, statement by statement; deletion is in Delete. The loops run on fuel.
pub mod InsertAt
pub mod Delete
pub mod Tests
use monya.Prelude.{
  ℕ, zero, suc, ◌+◌, List, [], ◌∷◌, ◌++◌, Bool, true, false, not, ◌&&◌, Run, ok, throw, out_of_fuel,
  runtime_error, assertion, ◌>>=◌, ◌>>◌, require, Scalar, Ptr, null, ◌==◌, if◌then◌else◌,
}
use monya.TreeMemory.{
  Mem, BChild, left_child, right_child, get_comparator, get_parent, get_left, get_right, get_color,
  set_parent, set_left, set_right, set_color, delete,
}
use monya.BinaryTree

pub record RbTree (D : Type 0) : Type 0 where
  pub mem : Mem D
  pub root : Ptr
  pub depth : ℕ

module _ {D : Type 0} where
  -- `RBTree()`, which leaves `depth` unset: it is an argument
  pub create : Mem D → ℕ → RbTree D
  create m depth = record { mem = m; root = null; depth = depth }

  pub get_root : RbTree D → Ptr
  get_root t = t.root

  pub empty : RbTree D → Bool
  empty t = t.root == null

  pub set_depth : RbTree D → ℕ → RbTree D
  set_depth t depth = record t { depth = depth }

  -- `delete_node` and `get_nnodes` are the functions of `BinaryTree` over again.
  pub delete_node : ℕ → Mem D → Ptr → Run (Mem D)
  delete_node = BinaryTree.delete_node

  pub get_nnodes : ℕ → Mem D → Ptr → ℕ → Run ℕ
  get_nnodes = BinaryTree.get_nnodes

  -- `echo(node, tabs)`: each line's indentation, comparator, and whether it ends in `B`, which the
  -- code prints where `color` is not 0
  pub echo : ℕ → Mem D → Ptr → ℕ → Run (List (ℕ × D × Bool))
  unfolding get_left get_right get_comparator get_color
  echo zero m node tabs = out_of_fuel
  echo (suc fuel) m node tabs = if node == null then ok [] else do
    l ← get_left m node
    above ← echo fuel m l (tabs + 1)
    k ← get_comparator m node
    c ← get_color m node
    r ← get_right m node
    below ← echo fuel m r (tabs + 1)
    ok (above ++ (tabs, k, not (c == 0)) ∷ below)

  -- `x->parent`'s link to `x` is turned to `y`; with no parent, `root` is.
  unfoldable pub relink : RbTree D → Ptr → Ptr → Run (RbTree D)
  unfolding get_parent get_left set_left set_right
  relink t x y = do
    p ← get_parent t.mem x
    if p == null then ok (record t { root = y }) else do
      l ← get_left t.mem p
      m ← if x == l then set_left t.mem p y else set_right t.mem p y
      ok (record t { mem = m })

  unfoldable pub rotate_left : RbTree D → Ptr → Run (RbTree D)
  unfolding relink get_parent get_left get_right set_parent set_left set_right
  rotate_left t x = do
    y ← get_right t.mem x
    yl ← get_left t.mem y
    m ← set_right t.mem x yl
    yl ← get_left m y
    m ← if yl == null then ok m else set_parent m yl x
    p ← get_parent m x
    m ← set_parent m y p
    m ← set_left m y x
    t ← relink (record t { mem = m }) x y
    m ← set_parent t.mem x y
    ok (record t { mem = m })

  unfoldable pub rotate_right : RbTree D → Ptr → Run (RbTree D)
  unfolding relink get_parent get_left get_right set_parent set_left set_right
  rotate_right t y = do
    x ← get_left t.mem y
    xr ← get_right t.mem x
    m ← set_left t.mem y xr
    xr ← get_right m x
    m ← if xr == null then ok m else set_parent m xr y
    p ← get_parent m y
    m ← set_parent m x p
    m ← set_right m x y
    t ← relink (record t { mem = m }) y x
    m ← set_parent t.mem y x
    ok (record t { mem = m })

  unfoldable pub rotate : Bool → RbTree D → Ptr → Run (RbTree D)
  unfolding rotate_left rotate_right
  rotate to_left t x = if to_left then rotate_left t x else rotate_right t x

  unfoldable pub transplant : RbTree D → Ptr → Ptr → Run (RbTree D)
  unfolding relink get_parent set_parent
  transplant t dest src = do
    t ← relink t dest src
    if src == null
        then ok t
        else do p ← get_parent t.mem dest; m ← set_parent t.mem src p; ok (record t { mem = m })

  pub minimum : ℕ → Mem D → Ptr → Run Ptr
  minimum zero m tree = out_of_fuel
  minimum (suc fuel) m tree = do
    l ← get_left m tree
    if l == null then ok tree else minimum fuel m l

  -- `parent`, `left` and `right` of a new red node
  unfoldable pub init_red : Mem D → Ptr → Ptr → Run (Mem D)
  unfolding set_color set_parent set_left set_right
  init_red m node parent = do
    m ← set_color m node 1
    m ← set_parent m node parent
    m ← set_right m node null
    set_left m node null

  -- the child of `p` on a side
  unfoldable pub child : Bool → Mem D → Ptr → Run Ptr
  unfolding get_left get_right
  child on_left m p = if on_left then get_left m p else get_right m p

  -- One round of the loop of `balance`, with the next `new_node`.
  unfoldable pub balance_step : RbTree D → Ptr → Run (RbTree D × Ptr)
  unfolding get_parent get_left get_right get_color set_color rotate child
  balance_step t new_node = do
    p ← get_parent t.mem new_node
    g ← get_parent t.mem p
    gl ← get_left t.mem g
    let side = p == gl
    uncle ← child (not side) t.mem g
    uncle_color ← if uncle == null then ok 0 else get_color t.mem uncle
    if uncle_color == 1
        then (do
          m ← set_color t.mem p 0
          m ← set_color m uncle 0
          m ← set_color m g 1
          ok (record t { mem = m }, g))
        else do
          inner ← child (not side) t.mem p
          (t, new_node) ←
              if new_node == inner then (do t ← rotate side t p; ok (t, p)) else ok (t, new_node)
          p ← get_parent t.mem new_node
          m ← set_color t.mem p 0
          g ← get_parent m p
          m ← set_color m g 1
          t ← rotate (not side) (record t { mem = m }) g
          ok (t, new_node)

  -- `while (new_node->parent && new_node->parent->color == 1)`
  unfoldable pub balance_loop : ℕ → RbTree D → Ptr → Run (RbTree D)
  unfolding get_parent get_color
  balance_loop zero t new_node = out_of_fuel
  balance_loop (suc fuel) t new_node = do
    p ← get_parent t.mem new_node
    if p == null then ok t else do
      c ← get_color t.mem p
      if c == 1
          then (do (t, new_node) ← balance_step t new_node; balance_loop fuel t new_node)
          else ok t

  unfoldable pub blacken_root : RbTree D → Run (RbTree D)
  unfolding set_color
  blacken_root t = do m ← set_color t.mem t.root 0; ok (record t { mem = m })

module _ {D : Type 0} (s : Scalar D) where
  -- the links that `balance` sets (again) before its loop, for `new_node = node`
  unfoldable pub place : RbTree D → Ptr → Ptr → Run (RbTree D)
  unfolding init_red get_comparator set_color set_parent set_left set_right
  place t parent node =
      if parent == null
      then (do
        m ← set_color t.mem node 0
        m ← set_right m node null
        m ← set_left m node null
        m ← set_parent m node null
        ok (record t { mem = m; root = node }))
      else do
        m ← init_red t.mem node parent
        a ← get_comparator m node
        b ← get_comparator m parent
        m ← if s.lt a b then set_left m parent node else set_right m parent node
        ok (record t { mem = m })

  -- `balance(parent, node, new_node)`: `new_node` is overwritten by `node` on both branches.
  unfoldable pub balance : ℕ → RbTree D → Ptr → Ptr → Ptr → Run (RbTree D)
  balance fuel t parent node new_node = do
    t ← place t parent node
    t ← balance_loop fuel t node
    blacken_root t

  -- `insert` links the node, and calls `balance`, which links it again.
  pub insert : ℕ → RbTree D → Ptr → Run (RbTree D)
  insert fuel t node = do
    parent ← BinaryTree.descend s fuel t.mem node t.root null
    t ← place t parent node
    balance fuel t parent node node

  -- `insert_at(new_node, node, pos)`: the branch for a null `node` is not reached, since the test
  -- before it reads `node->left`.
  unfoldable pub insert_at : ℕ → RbTree D → Ptr → Ptr → BChild → Run (RbTree D)
  unfolding get_left init_red set_left set_right
  insert_at fuel t new_node node pos = do
    l ← get_left t.mem node
    require (l == null) runtime_error
    m ← init_red t.mem new_node node
    m ← elim pos [ left_child ↦ set_left m node new_node | right_child ↦ set_right m node new_node ]
    balance fuel (record t { mem = m }) node node new_node

  pub set_root : ℕ → RbTree D → Ptr → Run (RbTree D)
  set_root fuel t node = do require (not (node == null)) assertion; insert fuel t node

  pub find : ℕ → RbTree D → D → Run Ptr
  find fuel t shell = BinaryTree.find_loop s fuel t.mem shell t.root
