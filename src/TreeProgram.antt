-- ===== src/TreeProgram.antt =====
-- `BinaryTreeProgram` of src/BinaryTreeProgram.hpp: `build` grows a tree level by level through the
-- scheduler of src/structures/Scheduler.cpp, whose threads (src/structures/WorkerThread.cpp) prepare
-- and run the nodes of a level once it is full. The virtual members of a node are the fields of
-- `Nodes`, on the state `S` that the nodes share. The threads of a level are run one after the other.
pub mod Setup
pub mod Fill
pub mod Children
pub mod Work
use monya.Prelude.{
  ℕ, zero, suc, ◌+◌, ◌-◌, ◌%◌, ◌^◌, Bool, true, false, not, ◌&&◌, ◌||◌, List, [], ◌∷◌, Run, ok,
  out_of_fuel, assertion, ◌>>=◌, ◌>>◌, require, Ptr, null, ltb, leb, ◌==◌, if◌then◌else◌, length,
}
use monya.TaskQueue.{TaskQueue, run_build}
use monya.Scheduler
use monya.Scheduler.{Scheduler}

-- what the program calls on the nodes
pub record Nodes (S : Type 0) : Type 0 where
  -- `prep` and then `run`
  pub work : S → Ptr → Run S
  pub spawn : S → Ptr → Run S
  pub get_depth : S → Ptr → ℕ
  -- `get_data_index().size()`
  pub data_size : S → Ptr → ℕ
  pub left : S → Ptr → Ptr
  pub right : S → Ptr → Ptr

pub record Program (S : Type 0) : Type 0 where
  pub root : Ptr
  pub max_depth : ℕ
  pub scheduler : Scheduler
  pub nodes : S

module _ {S : Type 0} (ops : Nodes S) where
  -- the build phase of the threads, each until its queue is empty
  unfoldable pub work_all : List TaskQueue → S → Run (List TaskQueue × S)
  work_all [] st = ok ([], st)
  work_all (q ∷ qs) st = do
    (q, st) ← run_build (length q.tasks + 1) ops.work q st
    (qs, st) ← work_all qs st
    ok (q ∷ qs, st)

  -- `wake4run(BUILD)` and `wait4completion()` at the end of `run_level`
  unfoldable pub run_threads : Program S → Run (Program S)
  run_threads p = do
    (threads, st) ← work_all p.scheduler.threads p.nodes
    ok (record p { scheduler = record p.scheduler { threads = threads }; nodes = st })

  -- `scheduler->schedule(node)`, which runs the level that the node fills
  unfoldable pub schedule : Program S → Ptr → Run (Program S)
  schedule p node = do
    s ← Scheduler.schedule p.scheduler node
    let ran = not (s.current_level == p.scheduler.current_level)
    if ran then run_threads (record p { scheduler = s }) else ok (record p { scheduler = s })

  -- one round of the loop that spawns, with whether a node has been spawned
  unfoldable pub spawn_one : ℕ → Ptr → S × Bool → Run (S × Bool)
  spawn_one max_depth node (st, one_spawned) =
      if ltb (ops.get_depth st node) max_depth && ltb 1 (ops.data_size st node)
      then (do st ← ops.spawn st node; ok (st, true))
      else ok (st, one_spawned)

  unfoldable pub spawn_all : ℕ → List Ptr → S × Bool → Run (S × Bool)
  spawn_all max_depth [] st = ok st
  spawn_all max_depth (node ∷ ps) st = do
    st ← spawn_one max_depth node st
    spawn_all max_depth ps st

  -- `if (child) scheduler->schedule(child)`
  unfoldable pub schedule_child : Program S → Ptr → Run (Program S)
  schedule_child p child = if child == null then ok p else schedule p child

  -- the loop that schedules the children
  unfoldable pub schedule_children : List Ptr → Program S → Run (Program S)
  schedule_children [] p = ok p
  schedule_children (node ∷ ps) p = do
    p ← schedule_child p (ops.left p.nodes node)
    p ← schedule_child p (ops.right p.nodes node)
    schedule_children ps p

  -- the `while (true)` of `build`; the level is narrowed to `unsigned` by `get_nodes`
  unfoldable pub build_loop : ℕ → Program S → Run (Program S)
  build_loop zero p = out_of_fuel
  build_loop (suc fuel) p = do
    let procd_level = (p.scheduler.current_level + (2 ^ 64 - 1)) % 2 ^ 64
    require (leb procd_level p.max_depth) assertion
    procd_nodes ← Scheduler.get_nodes p.scheduler (procd_level % 2 ^ 32)
    (st, one_spawned) ← spawn_all p.max_depth procd_nodes (p.nodes, false)
    let p = record p { nodes = st }
    if (procd_level == p.max_depth) || not one_spawned
        then ok p
        else do p ← schedule_children procd_nodes p; build_loop fuel p

  unfoldable pub build : ℕ → Program S → Run (Program S)
  unfolding schedule build_loop
  build fuel p = do
    require (not (p.root == null)) assertion
    p ← schedule p p.root
    build_loop fuel p
