-- ===== src/KdTree/Program.antt =====
-- The nodes of a `kdTreeProgram` of src/examples/kdtree.cpp in memory, and what
-- `BinaryTreeProgram::build` calls on them: `prep` and `run` for a worker thread, and `spawn` with its
-- two calls of `new`. The nodes' `ioer` all point at one matrix.
pub mod Prepare
pub mod Work
pub mod Skeleton
pub mod Spawn
pub mod Grows
pub mod Expand
pub mod Level
pub mod AtLevel
pub mod Build
pub mod Search
pub mod Setup
pub mod Tests
use monya.Prelude.{
  ◌+◌, Bool, ◌&&◌, Run, ok, fault, ◌>>=◌, Scalar, Ptr, null, update, ltb, if◌then◌else◌,
}
use monya.IndexVector
use monya.IndexVector.{Algorithms}
use monya.MemoryIo.{MemoryIo}
use monya.NodeView
use monya.NodeView.{NodeView}
use monya.KdTree
use monya.KdTree.{KdNode}
use monya.KdTree.Traversal.{KdMem}
use monya.TreeProgram.{Nodes}

pub record KdHeap (D : Type 0) : Type 0 where
  pub io : MemoryIo D
  pub node : Ptr → KdNode D
  pub left : Ptr → Ptr
  pub right : Ptr → Ptr
  -- the addresses from here on have not been allocated
  pub next : Ptr

module _ {D : Type 0} where
  abbrev pub is_live : KdHeap D → Ptr → Bool
  is_live h p = ltb 0 p && ltb p h.next

  abbrev pub deref {ℓ} : {A : Type ℓ} → KdHeap D → Ptr → A → Run A
  deref h p x = if is_live h p then ok x else fault

  -- `prep` and `run`, as a worker calls them
  unfoldable pub work : Algorithms D → KdHeap D → Ptr → Run (KdHeap D)
  work a h p = do
    n ← deref h p (h.node p)
    view ← NodeView.prep h.io n.view
    n ← KdTree.run a (record n { view = view })
    ok (record h { node = update h.node p n })

  -- `spawn`, where `blank` is what the constructor leaves in a new node
  unfoldable pub spawn : Scalar D → NodeView D → KdHeap D → Ptr → Run (KdHeap D)
  spawn s blank h p = do
    n ← deref h p (h.node p)
    let l = h.next
    let r = h.next + 1
    (left, right) ← KdTree.spawn s h.io p blank n
    ok (record h {
      node = update (update h.node l left) r right;
      left = update (update (update h.left l null) r null) p l;
      right = update (update (update h.right l null) r null) p r;
      next = h.next + 2;
    })

  unfoldable pub kd_nodes : Scalar D → Algorithms D → NodeView D → Nodes (KdHeap D)
  unfolding work spawn NodeView.get_depth IndexVector.size
  kd_nodes s a blank = record {
    work = work a;
    spawn = spawn s blank;
    get_depth = λ h p. NodeView.get_depth (h.node p).view;
    data_size = λ h p. IndexVector.size (h.node p).view.data_index;
    left = λ h p. h.left p;
    right = λ h p. h.right p;
  }

  -- the nodes as `find_neighbors` reads them; their `parent` is that of `NodeView`
  abbrev pub kd_mem : KdHeap D → KdMem D
  kd_mem h = record {
    links = record {
      live = is_live h;
      comparator = λ p. (h.node p).view.comparator;
      parent = λ p. (h.node p).view.parent;
      left = h.left;
      right = h.right;
      color = λ p. 0;
    };
    split_dim = λ p. (h.node p).split_dim;
    data_index = λ p. (h.node p).view.data_index;
  }
