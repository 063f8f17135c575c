-- ===== src/Scheduler/Threads.antt =====
-- The scheduler's thread and its `n` worker threads, interleaved in any order: `wake4run`, the
-- barrier `wait4completion` and `destroy_threads` of src/structures/Scheduler.cpp, `wake` of
-- src/structures/WorkerThread.cpp, one access to what they share at a time. The scheduler's own
-- mutex has no move: in this part no other thread takes it.
pub mod Count
pub mod Invariant
pub mod Moves
pub mod Wake
pub mod Change
pub mod Kept
pub mod Ending
pub mod Barrier
pub mod Progress
pub mod Schedule
pub mod Tests
use monya.Prelude.{ℕ, suc, ◌+◌, ◌≤◌, ◌<◌, ◌≡◌, ◌≢◌, Bool, true, false, update}
use monya.WorkerThread.{
  ThreadState, test, build, query, wait, exit, Worker, WorkerMove, read_wait, wake_up, inc_pending,
  Signal, silent, signals,
}

-- Where the scheduler stands, before the access that the comment names.
pub data SchedulerPc : Type 0 where
  idle : SchedulerPc  -- between a level's barrier and what comes next
  read_pending : SchedulerPc  -- `while (pending_threads != 0)`
  park : SchedulerPc  -- before `pthread_cond_wait`
  parked : SchedulerPc  -- inside `pthread_cond_wait`
  -- in `wake(state)` of thread `i`
  lock_state : ThreadState → ℕ → SchedulerPc
  set_state : ThreadState → ℕ → SchedulerPc
  inc_ppt : ThreadState → ℕ → SchedulerPc
  unlock_state : ThreadState → ℕ → SchedulerPc
  signal_thread : ThreadState → ℕ → SchedulerPc
  delete_thread : ℕ → SchedulerPc  -- `delete(threads[i])`
  gone : SchedulerPc

-- The states that `wake4run` is called with: BUILD by `run_level`, EXIT by `destroy_threads`, TEST
-- by the tests.
abbrev pub is_order : ThreadState → Bool
is_order test = true
is_order build = true
is_order exit = true
is_order _ = false

-- what follows `wake4run`: the barrier, or in `destroy_threads` the deletion
abbrev pub after_wake : ThreadState → SchedulerPc
after_wake exit = delete_thread 0
after_wake _ = read_pending

abbrev pub resume : Signal → SchedulerPc → SchedulerPc
resume signals parked = read_pending
resume _ p = p

pub record System : Type 0 where
  pub pending : ℕ
  pub pc : SchedulerPc
  pub workers : ℕ → Worker

-- One move of the scheduler, by the number of pending threads and the workers.
pub data SchedulerMove (n : ℕ) (pending : ℕ) (workers : ℕ → Worker)
    : SchedulerPc → ℕ → SchedulerPc → (ℕ → Worker) → Type 0 where
  order :
      {state : ThreadState}
      → is_order state ≡ true
      → SchedulerMove n pending workers idle pending (lock_state state 0) workers
  none_pending : pending ≡ 0 → SchedulerMove n pending workers read_pending pending idle workers
  some_pending : pending ≢ 0 → SchedulerMove n pending workers read_pending pending park workers
  block : SchedulerMove n pending workers park pending parked workers
  spurious_end : SchedulerMove n pending workers parked pending read_pending workers
  take_lock :
      {state : ThreadState} {i : ℕ}
      → i < n
      → (workers i).locked ≡ false
      → SchedulerMove n pending workers
          (lock_state state i)
          pending
          (set_state state i)
          (update workers i (record (workers i) { locked = true }))
  set_order :
      {state : ThreadState} {i : ℕ}
      → SchedulerMove n pending workers
          (set_state state i)
          pending
          (inc_ppt state i)
          (update workers i (record (workers i) { state = state }))
  increment :
      {state : ThreadState} {i : ℕ}
      → SchedulerMove n pending workers
          (inc_ppt state i)
          (inc_pending pending)
          (unlock_state state i)
          workers
  give_lock :
      {state : ThreadState} {i : ℕ}
      → SchedulerMove n pending workers
          (unlock_state state i)
          pending
          (signal_thread state i)
          (update workers i (record (workers i) { locked = false }))
  notify :
      {state : ThreadState} {i : ℕ}
      → SchedulerMove n pending workers
          (signal_thread state i)
          pending
          (lock_state state (suc i))
          (update workers i (record (workers i) { pc = wake_up (workers i).pc }))
  all_woken :
      {state : ThreadState} {i : ℕ}
      → n ≤ i
      → SchedulerMove n pending workers (lock_state state i) pending (after_wake state) workers
  -- `delete(threads[i])` frees the thread's object; its members are left as they are here.
  delete_one :
      {i : ℕ}
      → i < n
      → SchedulerMove n pending workers (delete_thread i) pending (delete_thread (suc i)) workers
  all_deleted :
      {i : ℕ} → n ≤ i → SchedulerMove n pending workers (delete_thread i) pending gone workers

pub data Step (n : ℕ) (s : System) : System → Type 0 where
  worker :
      (i : ℕ) {pending : ℕ} {g : Signal} {w : Worker}
      → i < n
      → WorkerMove s.pending (s.workers i).state (s.workers i).locked (s.workers i).pc pending g w
      → Step n s (record { pending = pending; pc = resume g s.pc; workers = update s.workers i w })
  scheduler :
      {pending : ℕ} {pc : SchedulerPc} {workers : ℕ → Worker}
      → SchedulerMove n s.pending s.workers s.pc pending pc workers
      → Step n s (record { pending = pending; pc = pc; workers = workers })

-- The constructor, once it has created the threads: each begins `callback`, and is pending.
abbrev pub init : ℕ → System
init n = record {
  pending = n;
  pc = read_pending;
  workers = λ _. record { state = wait; locked = false; pc = read_wait };
}

pub data Reach (n : ℕ) : System → Type 0 where
  start : Reach n (init n)
  later : {s t : System} → Reach n s → Step n s t → Reach n t
