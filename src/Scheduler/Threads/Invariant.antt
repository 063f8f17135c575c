-- ===== src/Scheduler/Threads/Invariant.antt =====
-- What ties the number of pending threads, the mutexes and the states of the threads together.
use monya.Prelude.{ℕ, suc, ◌≤◌, ◌<◌, ◌≡◌, ◌≢◌, Bool, true, false, ◌&&◌, ◌||◌, ◌==◌, if◌then◌else◌}
use monya.WorkerThread.{
  ThreadState, build, wait, exit, Worker, WorkerPc, set_wait, dec_ppt, read_ppt, signal_parent,
  read_state, release, asleep, woken, read_exit, read_wait, running, building, exited, thrown,
}
use monya.Scheduler.Threads.{
  SchedulerPc, System, is_order, idle, lock_state, set_state, inc_ppt, unlock_state, signal_thread,
}
use monya.Scheduler.Threads.Count.{total}

-- the accesses of a worker between `acquire_state_lock` and `release_state_lock`, outside
-- `pthread_cond_wait`
abbrev pub owns : WorkerPc → Bool
owns (set_wait c) = true
owns (dec_ppt c) = true
owns (read_ppt c) = true
owns (signal_parent c) = true
owns (read_state c) = true
owns (release c) = true
owns _ = false

-- the accesses of `wait` after `dec_ppt`, up to the end of the loop
abbrev pub in_wait : WorkerPc → Bool
in_wait (read_ppt c) = true
in_wait (signal_parent c) = true
in_wait (read_state c) = true
in_wait (asleep c) = true
in_wait (woken c) = true
in_wait _ = false

-- how far the scheduler is in `wake` of one thread
pub data Stage : Type 0 where
  away has_lock has_stored has_counted has_unlocked : Stage

abbrev pub stage : SchedulerPc → ℕ → Stage
stage (set_state st j) i = if i == j then has_lock else away
stage (inc_ppt st j) i = if i == j then has_stored else away
stage (unlock_state st j) i = if i == j then has_counted else away
stage (signal_thread st j) i = if i == j then has_unlocked else away
stage _ i = away

abbrev pub holds : Stage → Bool
holds has_lock = true
holds has_stored = true
holds has_counted = true
holds _ = false

abbrev pub is_wait : ThreadState → Bool
is_wait wait = true
is_wait _ = false

-- what a thread counts in `pending_threads`
abbrev pub share : Stage → ThreadState → WorkerPc → ℕ
share has_stored st p = if in_wait p then 0 else 1
share g st p = if in_wait p && is_wait st then 0 else 1

-- what a worker knows of its state
abbrev pub Told : ThreadState → WorkerPc → Type 0
Told st read_wait = (is_wait st || is_order st) ≡ true
Told st (dec_ppt c) = st ≡ wait
Told st (read_ppt c) = st ≡ wait
Told st (signal_parent c) = st ≡ wait
Told st (read_state c) = (is_wait st || is_order st) ≡ true
Told st (asleep c) = (is_wait st || is_order st) ≡ true
Told st (woken c) = (is_wait st || is_order st) ≡ true
Told st (release c) = is_order st ≡ true
Told st read_exit = is_order st ≡ true
Told st running = (is_order st ≡ true) × (st ≢ exit)
Told st building = st ≡ build
Told st exited = st ≡ exit
Told st thrown = ⊥
Told st _ = Unit

-- what the scheduler knows of the thread that it wakes
abbrev pub Woken : Stage → ThreadState → WorkerPc → Type 0
Woken has_lock st p = (in_wait p ≡ true) × (st ≡ wait)
Woken has_stored st p = (in_wait p ≡ true) × (is_order st ≡ true)
Woken has_counted st p = (in_wait p ≡ true) × (is_order st ≡ true)
Woken _ st p = Unit

-- A thread that sleeps has not been told otherwise, or is about to be signalled.
abbrev pub Signalled : Stage → ThreadState → WorkerPc → Type 0
Signalled away st (asleep c) = st ≡ wait
Signalled _ st p = Unit

pub record Fits (g : Stage) (st : ThreadState) (locked : Bool) (p : WorkerPc) : Type 0 where
  pub mutex : locked ≡ (owns p || holds g)
  pub alone : (owns p && holds g) ≡ false
  pub told : Told st p
  pub woken : Woken g st p
  pub signalled : Signalled g st p

abbrev pub FitsWorker : Stage → Worker → Type 0
FitsWorker g w = Fits g w.state w.locked w.pc

-- A thread that has counted itself out, and has not been woken.
abbrev pub IsWaiting : Worker → Type 0
IsWaiting w = (in_wait w.pc ≡ true) × (w.state ≡ wait)

-- The scheduler is past its barrier, and has not woken the threads from here on.
abbrev pub first_waiting : ℕ → SchedulerPc → ℕ
first_waiting n idle = 0
first_waiting n (lock_state st i) = i
first_waiting n (set_state st i) = suc i
first_waiting n (inc_ppt st i) = suc i
first_waiting n (unlock_state st i) = suc i
first_waiting n (signal_thread st i) = suc i
first_waiting n _ = n

abbrev pub Sound : ℕ → SchedulerPc → Type 0
Sound n (lock_state st i) = is_order st ≡ true
Sound n (set_state st i) = (is_order st ≡ true) × (i < n)
Sound n (inc_ppt st i) = (is_order st ≡ true) × (i < n)
Sound n (unlock_state st i) = (is_order st ≡ true) × (i < n)
Sound n (signal_thread st i) = (is_order st ≡ true) × (i < n)
Sound n _ = Unit

abbrev pub share_at : SchedulerPc → (ℕ → Worker) → ℕ → ℕ
share_at pc ws i = share (stage pc i) (ws i).state (ws i).pc

pub record Inv (n : ℕ) (s : System) : Type 0 where
  pub count : s.pending ≡ total n (share_at s.pc s.workers)
  pub fits : (i : ℕ) → FitsWorker (stage s.pc i) (s.workers i)
  pub behind : (i : ℕ) → i < n → first_waiting n s.pc ≤ i → IsWaiting (s.workers i)
  pub sound : Sound n s.pc
