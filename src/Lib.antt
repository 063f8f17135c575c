-- ===== src/Lib.antt =====
-- Monya builds forests of search trees over a sample matrix and answers nearest-neighbour queries
-- with them. This library models the containers that it is made of, each from its source.
--
-- How the parts interact: samples are read by column from a matrix (src/io/IO.hpp) into the index
-- vectors of tree nodes (src/common/types.hpp); nodes are linked into trees
-- (src/structures/BinaryTree.cpp, RBTree.cpp, VecBinaryTree.cpp); a scheduler collects the nodes of a
-- level and hands them in batches to the task queues of the worker threads
-- (src/structures/Scheduler.cpp, TaskQueue.cpp, WorkerThread.cpp); a query feeds distances into one
-- list of nearest neighbours for each tree (src/common/NNVector.hpp).
--
-- The files:
--   Prelude: tests on numbers, lists, addresses, the result of a call, and the operations of `data_t`.
--   CUnsigned: `cunsigned` of src/common/types.hpp.
--   IndexVector: `IndexVal` and `IndexVector` of src/common/types.hpp.
--   NnVector: `NNVector` of src/common/NNVector.hpp, a circular list of nodes with a cache. Reads
--     holds its reading operations. Chain, Holds, Eval and Refinement tie it to a list; Access is about
--     `operator[]`, Walks about the other loops.
--   TreeMemory: the members of `BinaryNode` and `RBNode`, one map from addresses for each.
--   BinaryTree: src/structures/BinaryTree.cpp. Shape is the tree that a memory holds, Link and Insert
--     the insertion, Search the search, RoundTrip the two together.
--   RbTree: src/structures/RBTree.cpp, with `balance` and, in Delete, `_delete` statement by statement.
--   VecBinaryTree: src/structures/VecBinaryTree.cpp in the VECNODES build.
--   TaskQueue, Scheduler: src/structures/TaskQueue.cpp, the BUILD branch of `WorkerThread::run`, and
--     the levels of src/structures/Scheduler.cpp.
--   WorkerThread: src/structures/WorkerThread.cpp, one shared access of a thread at a time.
--     Scheduler/Threads has the scheduler's accesses and the interleavings; Invariant, Moves, Wake,
--     Change, Kept and Ending say what ties the threads together, Barrier and Progress what follows.
--   MemoryIo: the matrix of src/io/IO.hpp. Access is about its rows and columns, Transpose about
--     `transpose`.
--   NodeView: src/structures/NodeView.cpp, the samples of a node and the fetch of their values.
--   KdTree: `kdnode` of src/examples/kdtree.cpp, the split of a node at its median; Traversal has
--     `find_neighbors`, with its way down (Descent), its way back (Unwind, Ascent) and its result
--     (Distance, Nearest); Program has the nodes in memory as a program builds them: Prepare and Work
--     are a thread's work on a node, Skeleton the tree while it grows, Spawn, Grows, Expand and Level
--     one level of it, AtLevel and Build all of them, Search what a query then walks, Setup the roots
--     that `main` makes.
--   TreeProgram: `build` of src/BinaryTreeProgram.hpp, over any nodes, with the scheduler and the task
--     queues; Work is about the threads' phase, Fill and Children about the levels, Setup about the
--     constructors.
--   Query: src/structures/Stack.hpp, the dense vector of src/structures/SampleVector.hpp,
--     src/common/distance.hpp, and the lists of src/structures/Query.cpp.
--   BruteForce: src/validate/BruteForcekNN.hpp. Replace is about one sample, Nearest about more samples
--     than neighbours, Few about no more.
--   Engine: src/ComputeEngine.hpp; Forest is about a query over several trees.
--   Params, Metric: the parameters of src/common/types.hpp with src/io/IOfactory.hpp, and the accuracy
--     of src/common/Metric.hpp; Metric/Lists has its overload on neighbour lists.
--   Agreement: the tree search against the brute-force search; Training has the same for a program from
--     its constructor on.
--   Samples: `data_t` as numbers, for the examples. Each Tests module holds examples of its component.
--
-- Conventions. A definition keeps the name of its function; the receiver is an argument and its next
-- state a result. `Run` is the result of a call: a value, an exception, a fault (an access through a
-- pointer that is not live, or out of bounds), or fuel used up. A theorem that a call returns is one
-- about `Returns`, which no exception, fault or lack of fuel satisfies.
--
-- Fuel. Each loop over nodes runs on fuel, one unit for a round. For a tree, fuel above its number of
-- nodes is enough, and the theorems say so; `eval` and `run_level` compute their own fuel, the size of
-- the list plus one and the number of nodes, and are shown never to use it up. `build` takes a unit for
-- each level. Where a loop of the
-- code does not end, the theorem holds for every amount of fuel.
--
-- Threads. Where a level of a tree is run, the queues of the threads are emptied one after the other: a
-- thread writes no node but its own, so the order makes no difference to the nodes. The waiting and
-- waking of the threads is in Scheduler/Threads, in any interleaving. An exception that leaves a thread's
-- function ends the process, so the moves there are those up to it.
--
-- Parameters. `data_t` is a type with the comparisons and arithmetic that the code uses; theorems that
-- need an order assume that `<` is a strict weak order, which holds of floating-point values without
-- NaN. `std::sort`, `__gnu_parallel::sort` and `std::binary_search` are parameters with the behaviour
-- the standard documents. `unsigned` and `size_t` wrap where the code computes with them.
-- Where a number of neighbours is narrowed, the conversion is written out, and so is the sum of bits over
-- neighbour lists. The indexes of samples (`sample_id_t`, 32 bits), and the positions (`int`) and sums
-- over index vectors elsewhere, are taken as they are: the model is that of fewer than 2 ^ 32 samples,
-- and of index vectors of fewer than 2 ^ 31 items where they are read through by position.
--
-- Not modelled: file access (`SyncIO` with it) and printing; SAFS and cxxopts, which are copies of other
-- projects; the creation and binding of threads; the command line of src/examples/kdtree.cpp; the n-ary
-- and external-memory nodes, whose operations are stubs.
pub mod Prelude
pub mod CUnsigned
pub mod IndexVector
pub mod NnVector
pub mod TreeMemory
pub mod BinaryTree
pub mod RbTree
pub mod TaskQueue
pub mod WorkerThread
pub mod Scheduler
pub mod VecBinaryTree
pub mod MemoryIo
pub mod NodeView
pub mod KdTree
pub mod Query
pub mod BruteForce
pub mod Agreement
pub mod TreeProgram
pub mod Params
pub mod Metric
pub mod Engine
pub mod Samples
