-- ===== src/KdTree/Traversal.antt =====
-- `kdnode::distance` and `kdTreeProgram::find_neighbors` of src/examples/kdtree.cpp, without what
-- they print: a query goes down to the leaf of its sample, and back over every other leaf.
pub mod FullTree
pub mod Unwind
pub mod Descent
pub mod Ascent
pub mod Distance
pub mod Nearest
pub mod Tests
use monya.Prelude.{
  ℕ, zero, suc, Bool, true, false, not, List, [], ◌∷◌, Run, ok, fault, out_of_fuel, assertion,
  ◌>>=◌, ◌>>◌, require, Scalar, Ptr, null, update, ◌==◌, if◌then◌else◌, length,
}
use monya.IndexVector.{IndexVal, IndexVector}
use monya.MemoryIo.{MemoryIo}
use monya.MemoryIo
use monya.TreeMemory
use monya.TreeMemory.{Mem}
use monya.Query
use monya.Query.{Stack, push, pop, stack_empty, ProximityQuery}

-- the nodes of one tree: the links and comparators, and the members of `kdnode`
pub record KdMem (D : Type 0) : Type 0 where
  pub links : Mem D
  pub split_dim : Ptr → ℕ
  pub data_index : Ptr → IndexVector D

module _ {D : Type 0} (s : Scalar D) where
  -- `distance`, with the matrix at `ioer`
  unfoldable pub distance : MemoryIo D → List D → ℕ → Run D
  distance io sample idx = do
    member ← MemoryIo.get_row io idx
    Query.euclidean s sample member (length sample)

  -- the comparison of one round of the descent, and the child that it takes
  unfoldable pub next_node : KdMem D → ProximityQuery D → Ptr → Run Ptr
  next_node m query node = do
    split_dim ← TreeMemory.deref m.links node (m.split_dim node)
    x ← Query.entry query.qsample split_dim
    c ← TreeMemory.get_comparator m.links node
    if s.lt c x then TreeMemory.get_right m.links node else TreeMemory.get_left m.links node

  -- the `do` loop: from `node` to a NULL child
  unfoldable pub descend : ℕ → KdMem D → ProximityQuery D → Stack Ptr → Ptr → Run (Stack Ptr)
  descend zero m query visited node = out_of_fuel
  descend (suc fuel) m query visited node = do
    let visited = push visited node
    node ← next_node m query node
    if node == null then ok visited else descend fuel m query visited node

  -- the loop over the samples of a leaf
  unfoldable pub eval_samples :
      MemoryIo D → ℕ → List (IndexVal D) → ProximityQuery D → Run (ProximityQuery D)
  eval_samples io tree_id [] query = ok query
  eval_samples io tree_id (iv ∷ ivs) query = do
    dist ← distance io query.qsample.data_ iv.index
    query ← Query.eval s query iv.index dist tree_id
    eval_samples io tree_id ivs query

  -- A child that has not been processed is pushed; its comparator is read for the output.
  unfoldable pub push_child : KdMem D → (Ptr → Bool) → Stack Ptr → Ptr → Run (Stack Ptr)
  push_child m completed visited child =
      if completed child
      then ok visited
      else do c ← TreeMemory.get_comparator m.links child; ok (push visited child)

  -- the body of the loop over the stack, for a node that has been popped
  unfoldable pub process :
      MemoryIo D
      → KdMem D
      → ℕ
      → (Ptr → Bool)
      → Stack Ptr
      → ProximityQuery D
      → Ptr
      → Run (Stack Ptr × ProximityQuery D)
  process io m tree_id completed visited query node = do
    has_child ← TreeMemory.has_child m.links node
    if not has_child
        then (do
          query ← eval_samples io tree_id (m.data_index node).items query
          ok (visited, query))
        else do
          left ← TreeMemory.get_left m.links node
          visited ← push_child m completed visited left
          right ← TreeMemory.get_right m.links node
          visited ← push_child m completed visited right
          ok (visited, query)

  -- the loop over the stack; `completed` is a set as its test
  unfoldable pub unwind :
      ℕ
      → MemoryIo D
      → KdMem D
      → ℕ
      → (Ptr → Bool)
      → Stack Ptr
      → ProximityQuery D
      → Run (ProximityQuery D)
  unwind zero io m tree_id completed visited query = out_of_fuel
  unwind (suc fuel) io m tree_id completed visited query =
      if stack_empty visited then ok query else do
        (visited, node) ← pop visited
        (visited, query) ← process io m tree_id completed visited query node
        unwind fuel io m tree_id (update completed node true) visited query

  -- `find_neighbors`, from the root of the tree
  unfoldable pub find_neighbors :
      ℕ → MemoryIo D → KdMem D → ℕ → Ptr → ProximityQuery D → Run (ProximityQuery D)
  find_neighbors fuel io m tree_id root query = do
    visited ← descend fuel m query (record { elems = [] }) root
    unwind fuel io m tree_id (λ _. false) visited query
