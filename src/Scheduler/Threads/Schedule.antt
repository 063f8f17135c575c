-- ===== src/Scheduler/Threads/Schedule.antt =====
-- Reachable states by evaluation: the threads run in a given order, without spurious wake-ups.
use monya.Prelude.{
  ℕ, zero, suc, ◌<◌, ◌≡◌, refl, Bool, true, false, Option, none, some, List, ◌∷◌, foldl, arith,
}
use mathlib.Core.Logic.{dite}
use native.Mathlib.Decide.{dec_lt, ℕ_discrete}
use monya.WorkerThread.{
  ThreadState, test, build, query, wait, exit, Worker, WorkerPc, WorkerMove, Signal, read_wait,
  acquire, set_wait, dec_ppt, read_ppt, signal_parent, read_state, woken, release, read_exit,
  running, building, sees_wait, sees_other, lock, store_wait, decrement, is_last, is_not_last,
  signal, sleep, relock, told, unlock, leave, stay, switch, built,
}
use monya.Scheduler.Threads.{
  System, SchedulerPc, SchedulerMove, idle, read_pending, park, lock_state, set_state, inc_ppt,
  unlock_state, signal_thread, delete_thread, worker, scheduler, Reach, start, later, order,
  none_pending, some_pending, block, take_lock, set_order, increment, give_lock, notify, all_woken,
  delete_one, all_deleted,
}

record Next (n : ℕ) (st : ThreadState) (l : Bool) (p : WorkerPc) : Type 0 where
  pending : ℕ
  sent : Signal
  after : Worker
  move : WorkerMove n st l p pending sent after

by_move :
    {n n' : ℕ} {st : ThreadState} {l : Bool} {p : WorkerPc} {g : Signal} {w : Worker}
    → WorkerMove n st l p n' g w
    → Option (Next n st l p)
by_move mv = some (record { pending = _; sent = _; after = _; move = mv })

state-cases : (st s : ThreadState) → Dec (st ≡ s)
state-cases test test = yes refl
state-cases build build = yes refl
state-cases query query = yes refl
state-cases wait wait = yes refl
state-cases exit exit = yes refl
state-cases st s = no (ground arith)

free-cases : (l : Bool) → Dec (l ≡ false)
free-cases false = yes refl
free-cases true = no (ground arith)

-- A blocked thread has none.
next_worker : (n : ℕ) (st : ThreadState) (l : Bool) (p : WorkerPc) → Option (Next n st l p)
unfolding by_move state-cases free-cases ℕ_discrete
next_worker n st l read_wait =
    dite (state-cases st wait) (λ e. by_move (sees_wait e)) (λ e. by_move (sees_other e))
next_worker n st l (acquire c) = dite (free-cases l) (λ e. by_move (lock c e)) (λ _. none)
next_worker n st l (set_wait c) = by_move (store_wait c)
next_worker n st l (dec_ppt c) = by_move (decrement c)
next_worker n st l (read_ppt c) =
    dite (ℕ_discrete n 0) (λ e. by_move (is_last c e)) (λ e. by_move (is_not_last c e))
next_worker n st l (signal_parent c) = by_move (signal c)
next_worker n st l (read_state c) =
    dite (state-cases st wait) (λ e. by_move (sleep c e)) (λ e. by_move (told c e))
next_worker n st l (woken c) = dite (free-cases l) (λ e. by_move (relock c e)) (λ _. none)
next_worker n st l (release c) = by_move (unlock c)
next_worker n st l read_exit =
    dite (state-cases st exit) (λ e. by_move (leave e)) (λ e. by_move (stay e))
next_worker n st l running = by_move switch
next_worker n st l building = by_move built
next_worker n st l p = none

record NextScheduler (n pending : ℕ) (ws : ℕ → Worker) (pc : SchedulerPc) : Type 0 where
  pending' : ℕ
  after : SchedulerPc
  workers : ℕ → Worker
  move : SchedulerMove n pending ws pc pending' after workers

moves :
    {n pending pending' : ℕ} {ws ws' : ℕ → Worker} {pc pc' : SchedulerPc}
    → SchedulerMove n pending ws pc pending' pc' ws'
    → Option (NextScheduler n pending ws pc)
moves mv = some (record { pending' = _; after = _; workers = _; move = mv })

-- The scheduler begins another level where it is idle.
next_scheduler :
    (n pending : ℕ) (ws : ℕ → Worker) (pc : SchedulerPc) → Option (NextScheduler n pending ws pc)
unfolding moves free-cases ℕ_discrete dec_lt
next_scheduler n pending ws idle = moves (order {state = build} refl)
next_scheduler n pending ws read_pending =
    dite (ℕ_discrete pending 0) (λ e. moves (none_pending e)) (λ e. moves (some_pending e))
next_scheduler n pending ws park = moves block
next_scheduler n pending ws (lock_state st i) =
    dite (dec_lt i n)
      (λ lt. dite (free-cases (ws i).locked) (λ free. moves (take_lock lt free)) (λ _. none))
      (λ no_more. moves (all_woken (omega arith)))
next_scheduler n pending ws (set_state st i) = moves set_order
next_scheduler n pending ws (inc_ppt st i) = moves increment
next_scheduler n pending ws (unlock_state st i) = moves give_lock
next_scheduler n pending ws (signal_thread st i) = moves notify
next_scheduler n pending ws (delete_thread i) =
    dite (dec_lt i n) (λ lt. moves (delete_one lt)) (λ no_more. moves (all_deleted (omega arith)))
next_scheduler n pending ws pc = none

pub data Turn : Type 0 where
  thread : ℕ → Turn
  main : Turn
  destroy : Turn  -- `destroy_threads`, where the scheduler is idle

pub record History (n : ℕ) : Type 0 where
  pub last : System
  pub reach : Reach n last

after_worker :
    {n : ℕ} (r : History n) (i : ℕ)
    → i < n
    → Option (
        Next r.last.pending
          (r.last.workers i).state
          (r.last.workers i).locked
          (r.last.workers i).pc)
    → History n
after_worker r i lt none = r
after_worker r i lt (some x) = record { last = _; reach = later r.reach (worker i lt x.move) }

after_scheduler :
    {n : ℕ} (r : History n)
    → Option (NextScheduler n r.last.pending r.last.workers r.last.pc)
    → History n
after_scheduler r none = r
after_scheduler r (some x) = record { last = _; reach = later r.reach (scheduler x.move) }

destroying :
    (n pending : ℕ) (ws : ℕ → Worker) (pc : SchedulerPc) → Option (NextScheduler n pending ws pc)
unfolding moves
destroying n pending ws idle = moves (order {state = exit} refl)
destroying n pending ws pc = none

turn : {n : ℕ} → History n → Turn → History n
unfolding next_worker next_scheduler after_worker after_scheduler dec_lt destroying
turn {n} r (thread i) =
    dite (dec_lt i n)
      (λ lt. after_worker r i lt (
        next_worker r.last.pending (r.last.workers i).state (r.last.workers i).locked
          (r.last.workers i).pc))
      (λ _. r)
turn {n} r main = after_scheduler r (next_scheduler n r.last.pending r.last.workers r.last.pc)
turn {n} r destroy = after_scheduler r (destroying n r.last.pending r.last.workers r.last.pc)

unfoldable pub times : ℕ → Turn → List Turn → List Turn
times zero t ts = ts
times (suc k) t ts = t ∷ times k t ts

unfoldable pub play : (n : ℕ) → List Turn → History n
unfolding turn
play n = foldl turn (record { last = _; reach = start })
