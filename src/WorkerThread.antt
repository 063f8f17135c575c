-- ===== src/WorkerThread.antt =====
-- `ThreadState_t` of src/structures/ThreadState.hpp and the thread of a `WorkerThread` of
-- src/structures/WorkerThread.hpp and WorkerThread.cpp: `callback`, `wait` and `run`, one access to
-- what the threads share at a time. A mutex is whether it is locked, a condition variable is which
-- threads block on it; `pthread_cond_wait` may also end without a signal. The tasks of a `BUILD` are
-- `run_build` of TaskQueue.antt, and one move here.
use monya.Prelude.{
  ℕ, ◌+◌, ◌-◌, ◌%◌, ◌^◌, ◌≡◌, ◌≢◌, Bool, true, false, Run, ok, throw, not_implemented_exception,
  concurrency_exception, Error,
}

pub data ThreadState : Type 0 where
  test build query wait exit : ThreadState

-- which function has called `wait`
pub data Caller : Type 0 where
  by_callback by_run : Caller

-- Where the thread stands, before the access that the comment names.
pub data WorkerPc : Type 0 where
  read_wait : WorkerPc  -- `t->get_state() == WAIT` in `callback`
  acquire : Caller → WorkerPc  -- `acquire_state_lock("wait")`
  set_wait : Caller → WorkerPc  -- `set_state(WAIT)`
  dec_ppt : Caller → WorkerPc
  read_ppt : Caller → WorkerPc  -- `*parent_pending_threads == 0`
  signal_parent : Caller → WorkerPc  -- `pthread_cond_signal(parent_cond)`
  read_state : Caller → WorkerPc  -- `while (state == WAIT)`
  asleep : Caller → WorkerPc  -- inside `pthread_cond_wait`, its mutex released
  woken : Caller → WorkerPc  -- inside `pthread_cond_wait`, about to lock its mutex again
  release : Caller → WorkerPc  -- `release_state_lock()`
  read_exit : WorkerPc  -- `t->get_state() == EXIT`
  running : WorkerPc  -- the `switch` of `run`
  building : WorkerPc  -- the loop over the tasks
  exited : WorkerPc
  thrown : WorkerPc  -- the `switch` has thrown

-- where `wait` returns to: the second test of the loop, or, at the end of `run`, its next round
abbrev pub returned : Caller → WorkerPc
returned by_callback = read_exit
returned by_run = read_wait

-- the `switch` of `run`: what it does before `wait`, or the exception
unfoldable pub run_case : ThreadState → Run WorkerPc
run_case test = ok (acquire by_run)
run_case build = ok building
run_case query = throw not_implemented_exception
run_case exit = throw concurrency_exception
run_case wait = throw concurrency_exception

-- What leaves `run` of a thread in state `state` as an exception, by where the thread stands: a throw of
-- the `switch`, or what `dequeue`, or `prep` or `run` of a node, throws while the tasks are done.
-- Nothing catches it, so it ends the process: no move follows, and `WorkerMove` has none for it. A call
-- of pthread that fails is left out.
pub data RunThrows (state : ThreadState) : WorkerPc → Error → Type 0 where
  switch_throws : {e : Error} → run_case state ≡ throw e → RunThrows state running e
  task_throws : (e : Error) → RunThrows state building e

abbrev pub run_pc : Run WorkerPc → WorkerPc
run_pc (ok p) = p
run_pc _ = thrown

pub record Worker : Type 0 where
  pub state : ThreadState
  pub locked : Bool  -- `state_lock`
  pub pc : WorkerPc

-- `(*parent_pending_threads)--` and `++`, of an `unsigned`
abbrev pub dec_pending : ℕ → ℕ
dec_pending pending = (pending + (2 ^ 32 - 1)) % 2 ^ 32

abbrev pub inc_pending : ℕ → ℕ
inc_pending pending = (pending + 1) % 2 ^ 32

-- whether a move signals the scheduler
pub data Signal : Type 0 where
  silent signals : Signal

-- One move of the thread of a worker in state `state`, whose mutex is `locked` or not, where
-- `pending` threads are pending.
pub data WorkerMove (pending : ℕ) (state : ThreadState) (locked : Bool)
    : WorkerPc → ℕ → Signal → Worker → Type 0 where
  sees_wait :
      state ≡ wait
      → WorkerMove pending state locked read_wait pending silent
          (record { state = state; locked = locked; pc = acquire by_callback })
  sees_other :
      state ≢ wait
      → WorkerMove pending state locked read_wait pending silent
          (record { state = state; locked = locked; pc = read_exit })
  lock :
      (c : Caller)
      → locked ≡ false
      → WorkerMove pending state locked
          (acquire c)
          pending
          silent
          (record { state = state; locked = true; pc = set_wait c })
  store_wait :
      (c : Caller)
      → WorkerMove pending state locked
          (set_wait c)
          pending
          silent
          (record { state = wait; locked = locked; pc = dec_ppt c })
  decrement :
      (c : Caller)
      → WorkerMove pending state locked
          (dec_ppt c)
          (dec_pending pending)
          silent
          (record { state = state; locked = locked; pc = read_ppt c })
  is_last :
      (c : Caller)
      → pending ≡ 0
      → WorkerMove pending state locked
          (read_ppt c)
          pending
          silent
          (record { state = state; locked = locked; pc = signal_parent c })
  is_not_last :
      (c : Caller)
      → pending ≢ 0
      → WorkerMove pending state locked
          (read_ppt c)
          pending
          silent
          (record { state = state; locked = locked; pc = read_state c })
  signal :
      (c : Caller)
      → WorkerMove pending state locked
          (signal_parent c)
          pending
          signals
          (record { state = state; locked = locked; pc = read_state c })
  sleep :
      (c : Caller)
      → state ≡ wait
      → WorkerMove pending state locked
          (read_state c)
          pending
          silent
          (record { state = state; locked = false; pc = asleep c })
  spurious :
      (c : Caller)
      → WorkerMove pending state locked
          (asleep c)
          pending
          silent
          (record { state = state; locked = locked; pc = woken c })
  relock :
      (c : Caller)
      → locked ≡ false
      → WorkerMove pending state locked
          (woken c)
          pending
          silent
          (record { state = state; locked = true; pc = read_state c })
  told :
      (c : Caller)
      → state ≢ wait
      → WorkerMove pending state locked
          (read_state c)
          pending
          silent
          (record { state = state; locked = locked; pc = release c })
  unlock :
      (c : Caller)
      → WorkerMove pending state locked
          (release c)
          pending
          silent
          (record { state = state; locked = false; pc = returned c })
  leave :
      state ≡ exit
      → WorkerMove pending state locked read_exit pending silent
          (record { state = state; locked = locked; pc = exited })
  stay :
      state ≢ exit
      → WorkerMove pending state locked read_exit pending silent
          (record { state = state; locked = locked; pc = running })
  switch :
      WorkerMove pending state locked running pending silent
        (record { state = state; locked = locked; pc = run_pc (run_case state) })
  built :
      WorkerMove pending state locked building pending silent
        (record { state = state; locked = locked; pc = acquire by_run })

-- `pthread_cond_signal(&cond)` wakes the thread if it sleeps.
abbrev pub wake_up : WorkerPc → WorkerPc
wake_up (asleep c) = woken c
wake_up p = p
