-- ===== src/BinaryTree.antt =====
-- `BinaryTree` of src/structures/BinaryTree.hpp and BinaryTree.cpp: an unbalanced search tree over
-- nodes that the caller allocates. The loops and recursions run on fuel.
pub mod Shape
pub mod Link
pub mod Insert
pub mod Search
pub mod RoundTrip
pub mod Tests
use monya.Prelude.{
  ℕ, zero, suc, ◌+◌, Bool, true, false, not, ◌&&◌, List, [], ◌∷◌, ◌++◌, Run, ok, throw, fault,
  out_of_fuel, runtime_error, assertion, ◌>>=◌, ◌>>◌, require, Scalar, Ptr, null, update, ◌==◌,
  if◌then◌else◌,
}
use monya.TreeMemory.{
  Mem, BChild, left_child, right_child, get_comparator, get_left, get_right, set_parent, set_left,
  set_right, delete,
}

pub record BinaryTree (D : Type 0) : Type 0 where
  pub mem : Mem D
  pub root : Ptr
  pub depth : ℕ
  pub max_depth : ℕ

module _ {D : Type 0} where
  -- `BinaryTree()`, which leaves `depth` and `max_depth` unset: they are arguments
  pub create : Mem D → ℕ → ℕ → BinaryTree D
  create m depth max_depth = record { mem = m; root = null; depth = depth; max_depth = max_depth }

  pub get_root : BinaryTree D → Ptr
  get_root t = t.root

  pub empty : BinaryTree D → Bool
  empty t = t.root == null

  pub set_depth : BinaryTree D → ℕ → BinaryTree D
  set_depth t depth = record t { depth = depth }

  -- `parent = left = right = NULL` of a new node below `parent`
  unfoldable pub init_links : Mem D → Ptr → Ptr → Run (Mem D)
  unfolding set_parent set_left set_right
  init_links m node parent = do
    m ← set_parent m node parent
    m ← set_right m node null
    set_left m node null

  -- `insert_at`. The tests read through `node`, so a null `node` faults before the branch that means
  -- to serve it.
  pub insert_at : BinaryTree D → Ptr → Ptr → BChild → Run (BinaryTree D)
  unfolding init_links get_left get_right set_left set_right
  insert_at t new_node node left_child = do
    l ← get_left t.mem node
    require (l == null) runtime_error
    m ← init_links t.mem new_node node
    m ← set_left m node new_node
    ok (record t { mem = m })
  insert_at t new_node node right_child = do
    r ← get_right t.mem node
    require (r == null) runtime_error
    m ← init_links t.mem new_node node
    m ← set_right m node new_node
    ok (record t { mem = m })

  -- `get_nnodes(node, nnodes)`: the counter after the call
  unfoldable pub get_nnodes : ℕ → Mem D → Ptr → ℕ → Run ℕ
  get_nnodes zero m node nnodes = out_of_fuel
  get_nnodes (suc fuel) m node nnodes = if node == null then ok nnodes else do
    l ← get_left m node
    n ← get_nnodes fuel m l (nnodes + 1)
    r ← get_right m node
    get_nnodes fuel m r n

  -- `echo(node, tabs)`: the lines printed, each with its indentation
  unfoldable pub echo : ℕ → Mem D → Ptr → ℕ → Run (List (ℕ × D))
  echo zero m node tabs = out_of_fuel
  echo (suc fuel) m node tabs = if node == null then ok [] else do
    l ← get_left m node
    above ← echo fuel m l (tabs + 1)
    c ← get_comparator m node
    r ← get_right m node
    below ← echo fuel m r (tabs + 1)
    ok (above ++ (tabs, c) ∷ below)

  -- `delete_node`
  unfoldable pub delete_node : ℕ → Mem D → Ptr → Run (Mem D)
  delete_node zero m node = out_of_fuel
  delete_node (suc fuel) m node = if node == null then ok m else do
    l ← get_left m node
    m ← if l == null then ok m else delete_node fuel m l
    r ← get_right m node
    m ← if r == null then ok m else delete_node fuel m r
    delete m node

module _ {D : Type 0} (s : Scalar D) where
  -- The loop of `insert` that finds the parent.
  unfoldable pub descend : ℕ → Mem D → Ptr → Ptr → Ptr → Run Ptr
  descend zero m node tmp parent = out_of_fuel
  descend (suc fuel) m node tmp parent = if tmp == null then ok parent else do
    a ← get_comparator m node
    b ← get_comparator m tmp
    next ← if s.lt a b then get_left m tmp else get_right m tmp
    descend fuel m node next tmp

  -- What follows the loop.
  unfoldable pub attach : BinaryTree D → Ptr → Ptr → Run (BinaryTree D)
  unfolding init_links get_comparator set_left set_right
  attach t node parent =
      if parent == null
      then (do m ← init_links t.mem node null; ok (record t { mem = m; root = node }))
      else do
        m ← init_links t.mem node parent
        a ← get_comparator m node
        b ← get_comparator m parent
        m ← if s.lt a b then set_left m parent node else set_right m parent node
        ok (record t { mem = m })

  unfoldable pub insert : ℕ → BinaryTree D → Ptr → Run (BinaryTree D)
  insert fuel t node = do parent ← descend fuel t.mem node t.root null; attach t node parent

  -- `set_root`
  pub set_root : ℕ → BinaryTree D → Ptr → Run (BinaryTree D)
  set_root fuel t node = do require (not (node == null)) assertion; insert fuel t node

  -- The loop of `find`; a null pointer ends it with an exception.
  unfoldable pub find_loop : ℕ → Mem D → D → Ptr → Run Ptr
  find_loop zero m shell node = out_of_fuel
  find_loop (suc fuel) m shell node = if node == null then throw runtime_error else do
    c ← get_comparator m node
    if s.lt shell c
        then (do l ← get_left m node; find_loop fuel m shell l)
        else if s.lt c shell
        then (do r ← get_right m node; find_loop fuel m shell r)
        else ok node

  unfoldable pub find : ℕ → BinaryTree D → D → Run Ptr
  unfolding find_loop
  find fuel t shell = find_loop fuel t.mem shell t.root
