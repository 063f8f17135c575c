-- ===== src/KdTree.antt =====
-- `kdnode` of src/examples/kdtree.cpp, in the build without PRUNE: a node splits its samples at the
-- median of one dimension.
pub mod Divide
pub mod Split
pub mod Traversal
pub mod Program
pub mod Tests
use monya.Prelude.{
  ℕ, ◌+◌, ◌-◌, ◌/◌, Bool, List, [], ◌∷◌, Run, ok, throw, assertion, ◌>>=◌, ◌>>◌, require, Scalar,
  Ptr, ltb, ◌==◌, if◌then◌else◌, length, take, drop,
}
use monya.IndexVector
use monya.IndexVector.{IndexVector, Algorithms}
use monya.MemoryIo.{MemoryIo}
use monya.NodeView
use monya.NodeView.{NodeView}

pub record KdNode (D : Type 0) : Type 0 where
  pub view : NodeView D
  pub split_dim : ℕ

module _ {D : Type 0} where
  pub set_split_dim : KdNode D → ℕ → KdNode D
  set_split_dim n split_dim = record n { split_dim = split_dim }

  pub get_split_dim : KdNode D → ℕ
  get_split_dim n = n.split_dim

  -- `run`: the comparator is the value in the middle, whose position is an `int`: that of fewer than
  -- 2 ^ 32 samples is kept by the conversion.
  unfoldable pub run : Algorithms D → KdNode D → Run (KdNode D)
  run a n = do
    let view = NodeView.sort_data_index a (ltb n.view.depth 3) n.view
    iv ← IndexVector.get view.data_index (IndexVector.size view.data_index / 2)
    ok (record n { view = NodeView.set_comparator view iv.val })

  -- the dimension of the children
  unfoldable pub next_split : MemoryIo D → KdNode D → ℕ
  next_split io n = if n.split_dim + 1 == io.dim.1 then 0 else n.split_dim + 1

module _ {D : Type 0} (s : Scalar D) where
  -- one child of `spawn`, a new node with the members `blank`, for the samples `idxs`
  unfoldable pub spawn_child : MemoryIo D → Ptr → NodeView D → KdNode D → List ℕ → Run (KdNode D)
  spawn_child io this blank n idxs = do
    view ← NodeView.bestow s n.view this blank
    let view = NodeView.set_index view (next_split io n)
    ok (record { view = NodeView.set_ph_data_index s view idxs; split_dim = next_split io n })

  -- `spawn`, of the node at address `this`: the left child and the right one
  unfoldable pub spawn : MemoryIo D → Ptr → NodeView D → KdNode D → Run (KdNode D × KdNode D)
  spawn io this blank n = do
    idxs ← IndexVector.get_indexes n.view.data_index []
    require (length idxs == IndexVector.size n.view.data_index) assertion
    let half = IndexVector.size n.view.data_index / 2
    left ← spawn_child io this blank n (take half idxs)
    right ← spawn_child io this blank n (drop half idxs)
    ok (left, right)
