-- ===== src/Scheduler.antt =====
-- `Scheduler` of src/structures/Scheduler.hpp and Scheduler.cpp: the nodes of a tree by levels, each
-- handed to the worker threads in batches once it is full. The threads' part of `run_level`, between
-- `wake4run` and `wait4completion`, is `run_build` of TaskQueue.antt.
pub mod HandOff
pub mod Levels
pub mod Threads
pub mod Tests
use monya.Prelude.{
  ℕ, zero, suc, ◌+◌, ◌-◌, ◌%◌, ◌^◌, Bool, true, false, not, Option, none, some, List, [], ◌∷◌, ◌++◌,
  Run, ok, fault, out_of_fuel, assertion, ◌>>=◌, ◌>>◌, require, Ptr, ltb, ◌==◌, if◌then◌else◌,
  length, get_elem?, take, drop,
}
use monya.CUnsigned
use monya.CUnsigned.{CUnsigned}
use monya.TaskQueue.{TaskQueue, enqueue_all}

pub record Scheduler : Type 0 where
  pub fanout : ℕ
  pub max_levels : ℕ
  pub current_level : ℕ
  pub nodes : List (List Ptr)
  -- the task queues of `threads`
  pub threads : List TaskQueue

-- `threads[tid]->get_task_queue()->enqueue(batch)`
unfoldable pub enqueue_on : List TaskQueue → ℕ → List Ptr → Run (List TaskQueue)
enqueue_on [] tid batch = fault
enqueue_on (q ∷ qs) zero batch = do q ← enqueue_all q batch; ok (q ∷ qs)
enqueue_on (q ∷ qs) (suc tid) batch = do qs ← enqueue_on qs tid batch; ok (q ∷ qs)

-- `MIN_TASKS_PT` tasks, or those that are left
unfoldable pub batch_size : ℕ → ℕ → ℕ
batch_size task_index n = if ltb (task_index + 8) (n + 1) then 8 else n - task_index

-- the loop of `run_level`
unfoldable pub hand_off : ℕ → List Ptr → List TaskQueue → CUnsigned → ℕ → Run (List TaskQueue)
hand_off zero level_nodes threads tid task_index = out_of_fuel
hand_off (suc fuel) level_nodes threads tid task_index = do
  let ntasks = batch_size task_index (length level_nodes)
  threads ← enqueue_on threads (CUnsigned.get tid) (take ntasks (drop task_index level_nodes))
  if task_index + ntasks == length level_nodes
      then ok threads
      else hand_off fuel level_nodes threads (CUnsigned.inc tid) (task_index + ntasks)

-- `nodes[level]`
unfoldable pub get_nodes : Scheduler → ℕ → Run (List Ptr)
get_nodes s level = elim (get_elem? s.nodes level) [ none ↦ fault | some l ↦ ok l ]

-- `run_level` up to `wake4run`; `threads.size()` is narrowed to `unsigned`.
unfoldable pub run_level : Scheduler → ℕ → Run Scheduler
run_level s level = do
  level_nodes ← get_nodes s level
  require (not (length level_nodes == 0)) assertion
  tid ← CUnsigned.create (length s.threads % 2 ^ 32)
  threads ← hand_off (length level_nodes) level_nodes s.threads tid 0
  ok (record s { threads = threads })

-- `level_is_full`: `std::pow` of the fanout, on the sizes where it is exact
unfoldable pub level_is_full : Scheduler → ℕ → Run Bool
unfolding get_nodes
level_is_full s level = do l ← get_nodes s level; ok (s.fanout ^ level == length l)

-- `nodes[level].push_back(node)`
unfoldable pub push_at : List (List Ptr) → ℕ → Ptr → Run (List (List Ptr))
push_at [] level node = fault
push_at (l ∷ ls) zero node = ok ((l ++ node ∷ []) ∷ ls)
push_at (l ∷ ls) (suc level) node = do ls ← push_at ls level node; ok (l ∷ ls)

unfoldable pub schedule : Scheduler → Ptr → Run Scheduler
schedule s node = do
  nodes ←
      if ltb (length s.nodes) (s.current_level + 1)
      then ok (s.nodes ++ (node ∷ []) ∷ [])
      else push_at s.nodes s.current_level node
  let s = record s { nodes = nodes }
  full ← level_is_full s s.current_level
  if full
      then run_level (record s { current_level = s.current_level + 1 }) s.current_level
      else ok s
