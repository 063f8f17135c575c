-- ===== src/TaskQueue.antt =====
-- `BuildTaskQueue` of src/structures/TaskQueue.hpp and TaskQueue.cpp: a queue of node addresses behind
-- an error-checking mutex. An acquire by the holder, and a release by another, throw.
pub mod Drain
pub mod Tests
use monya.Prelude.{
  ℕ, zero, suc, Bool, true, false, not, List, [], ◌∷◌, ◌++◌, Run, ok, out_of_fuel,
  concurrency_exception, not_implemented_exception, throw, ◌>>=◌, ◌>>◌, require, Ptr, null, ◌==◌,
  if◌then◌else◌, length,
}

pub record TaskQueue : Type 0 where
  pub tasks : List Ptr
  pub locked : Bool

-- `BuildTaskQueue()`
unfoldable pub create : TaskQueue
create = record { tasks = []; locked = false }

pub size : TaskQueue → ℕ
size q = length q.tasks

unfoldable pub acquire_lock : TaskQueue → Run TaskQueue
acquire_lock q = do require (not q.locked) concurrency_exception; ok (record q { locked = true })

unfoldable pub release_lock : TaskQueue → Run TaskQueue
release_lock q = do require q.locked concurrency_exception; ok (record q { locked = false })

-- `has_task`, with the queue after the call
pub has_task : TaskQueue → Run (TaskQueue × Bool)
unfolding acquire_lock release_lock
has_task q = do
  q ← acquire_lock q
  let found = not (length q.tasks == 0)
  q ← release_lock q
  ok (q, found)

-- `enqueue(NodeView**, size_t)`, of the array's first `nnodes` entries
unfoldable pub enqueue_all : TaskQueue → List Ptr → Run TaskQueue
unfolding acquire_lock release_lock
enqueue_all q runnables = do
  q ← acquire_lock q
  release_lock (record q { tasks = q.tasks ++ runnables })

-- `enqueue(NodeView*)`
pub enqueue : TaskQueue → Ptr → Run TaskQueue
unfolding acquire_lock release_lock
enqueue q runnable = do
  q ← acquire_lock q
  release_lock (record q { tasks = q.tasks ++ runnable ∷ [] })

-- what the lock guards in `dequeue`
front_and_pop : TaskQueue → List Ptr → Run (TaskQueue × Ptr)
front_and_pop q [] = ok (q, null)
front_and_pop q (node ∷ rest) = ok (record q { tasks = rest }, node)

-- `dequeue`: NULL from an empty queue
unfoldable pub dequeue : TaskQueue → Run (TaskQueue × Ptr)
unfolding acquire_lock release_lock front_and_pop
dequeue q = if length q.tasks == 0 then ok (q, null) else do
  q ← acquire_lock q
  (q, node) ← front_and_pop q q.tasks
  q ← release_lock q
  ok (q, node)

pub steal_task : TaskQueue → Run Bool
steal_task q = throw not_implemented_exception

-- `BUILD` in `WorkerThread::run`: tasks are requested until there is none. `work` is the virtual
-- `prep` and `run` of the node, on the state that they share.
unfoldable pub run_build {ℓ} :
    {S : Type ℓ} → ℕ → (S → Ptr → Run S) → TaskQueue → S → Run (TaskQueue × S)
run_build zero work q st = out_of_fuel
run_build (suc fuel) work q st = do
  (q, active_node) ← dequeue q
  if active_node == null then ok (q, st) else do st ← work st active_node; run_build fuel work q st
