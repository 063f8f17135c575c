-- ===== src/KdTree/Program/Tests.antt =====
-- Programs over small matrices, built and run.
use monya.Prelude.{
  ℕ, ◌≡◌, refl, true, false, [], ◌∷◌, arith, Run, ok, fault, ◌>>=◌, Returns, value_or,
}
use monya.Samples.{nat_scalar, nat-IsOrdered, nat_algorithms, nat_algorithms-IsAlgorithms}
use monya.MemoryIo.{MemoryIo, row}
use monya.NodeView.{NodeView, index_range}
use monya.NodeView
use monya.IndexVector
use monya.Params
use monya.Params.{Params, mem, bin}
use monya.KdTree
use monya.CUnsigned
use monya.TaskQueue
use monya.Scheduler
use monya.TreeProgram
use monya.MemoryIo
use monya.IndexVector.Order
use monya.KdTree.{KdNode}
use monya.KdTree.Traversal.Tests.{points, matrix}
use monya.KdTree.Program.{KdHeap, kd_nodes}
use monya.KdTree.Program.Build.{IsFresh, IsBuilt, build-IsBuilt}
use monya.KdTree.Program.Setup.{configure, init_root, mem-index_range}
use monya.TreeProgram.{Program, build}
use monya.TreeProgram.Setup.{create}

abbrev pub blank_node : NodeView ℕ
blank_node = record {
  data_index = record { items = []; sorted = false };
  req_indxs = [];
  comparator = 77;
  depth = 0;
  ioer = 0;
  parent = 5;
}

abbrev pub small_params : Params
small_params = record {
  nsamples = 3;
  nfeatures = 2;
  iotype = mem;
  ntree = 1;
  nthread = 2;
  orientation = row;
  fanout = 2;
  max_depth = 1;
  filetype = bin;
}

abbrev pub empty_heap : KdHeap ℕ
empty_heap = record {
  io = matrix;
  node = λ p. record { view = blank_node; split_dim = 0 };
  left = λ p. 0;
  right = λ p. 0;
  next = 1;
}

abbrev trained : Params → Run (Program (KdHeap ℕ))
trained params =
    (create params (configure params (ok points) fault empty_heap) >>= λ p.
    init_root blank_node 9 0 p)
    >>= λ p. build (kd_nodes nat_scalar nat_algorithms blank_node) 9 p

-- a program with its root
abbrev planted : Program (KdHeap ℕ)
planted = record {
  root = 1;
  max_depth = 1;
  scheduler = record {
    fanout = 2;
    max_levels = 1;
    current_level = 0;
    nodes = [];
    threads = record { tasks = []; locked = false } ∷ record { tasks = []; locked = false } ∷ [];
  };
  nodes = record empty_heap {
    node = λ p. record { view = record blank_node { req_indxs = 0 ∷ []; ioer = 9 }; split_dim = 0 };
    next = 2;
  };
}

planted-IsFresh : IsFresh matrix planted
planted-IsFresh = record {
  idle = record {
    ready = record { some_thread = omega arith; word = omega arith; free = (refl, (refl, tt)) };
    empty = refl;
    levelled = record { nodes = refl; levels = refl; all_full = tt; room = omega arith };
    binary = refl;
  };
  parent = 5;
  placed = record {
    live = refl;
    parent = refl;
    depth_ = refl;
    ioer = refl;
    ready = record {
      request = refl;
      dim = omega arith;
      rows = λ i e. omega (arith, mem-index_range 3 0 i e);
    };
  };
  no_left = refl;
  no_right = refl;
  matrix = refl;
  no_sample = refl;
}

build-IsBuilt_example :
    Returns
      (IsBuilt nat_scalar matrix 1 1 (index_range 3 0))
      (build (kd_nodes nat_scalar nat_algorithms blank_node) 2 planted)
build-IsBuilt_example =
    build-IsBuilt nat_scalar nat-IsOrdered nat_algorithms nat_algorithms-IsAlgorithms blank_node
      matrix points true (record { data_ = refl; orientation = refl; size = refl }) (omega arith) 2
      planted planted-IsFresh (omega arith) (omega arith) (omega arith)

-- Three rows are enough for one level below the root. For more levels they are not: the only node with
-- two samples is spawned again until the third level is full, which makes seven nodes for a tree of
-- five.
abbrev next_after : ℕ → ℕ
next_after depth =
    value_or 0 (trained (record small_params { max_depth = depth }) >>= λ p. ok p.nodes.next)

skewed : (next_after 1 ≡ 4) × (next_after 4 ≡ 8)
unfolding create configure init_root Params.create_io TreeProgram.Setup.open_matrix MemoryIo.create
    MemoryIo.set_orientation MemoryIo.shape MemoryIo.from_file build kd_nodes
    TreeProgram.Setup.nworkers TreeProgram.Setup.new_scheduler TreeProgram.Setup.new_queues
    TreeProgram.run_threads TreeProgram.work_all TreeProgram.spawn_all TreeProgram.spawn_one
    TreeProgram.schedule_children TreeProgram.schedule_child Scheduler.schedule
    Scheduler.level_is_full Scheduler.run_level Scheduler.hand_off Scheduler.enqueue_on
    Scheduler.batch_size Scheduler.get_nodes Scheduler.push_at CUnsigned.create CUnsigned.get
    TaskQueue.enqueue_all TaskQueue.create TaskQueue.dequeue TaskQueue.run_build
    IndexVector.contiguous IndexVector.get IndexVector.get_indexes IndexVector.placeholders
    IndexVector.set_indexes IndexVector.set_indexes_values IndexVector.size KdTree.next_split
    KdTree.run KdTree.spawn KdTree.spawn_child MemoryIo.gather MemoryIo.get_col MemoryIo.read_at
    MemoryIo.view NodeView.bestow NodeView.fill NodeView.prep NodeView.set_column
    NodeView.set_comparator NodeView.set_ioer NodeView.set_depth NodeView.set_index
    NodeView.set_ph_data_index NodeView.sort_data_index Order.insert_all Order.ordered_insert
skewed = (refl, refl)
