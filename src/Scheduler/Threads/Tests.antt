-- ===== src/Scheduler/Threads/Tests.antt =====
-- The scheduler and one thread in some orders of their moves.
use monya.Prelude.{
  ℕ, ◌+◌, ◌≤◌, ◌<◌, ◌≡◌, ◌≢◌, refl, false, not_implemented_exception, [], ◌∷◌, arith,
}
use monya.WorkerThread
use monya.WorkerThread.{
  ThreadState, test, build, query, wait, exit, Worker, WorkerPc, WorkerMove, Signal, Caller,
  read_wait, acquire, set_wait, dec_ppt, read_ppt, signal_parent, read_state, asleep, woken,
  release, read_exit, running, building, exited, by_callback, by_run, sees_wait, sees_other, lock,
  store_wait, decrement, is_last, is_not_last, signal, sleep, relock, told, unlock, leave,
  dec_pending, inc_pending, stay, switch, built, task_throws,
}
use monya.Scheduler.Threads.{idle, parked, gone}
use monya.Scheduler.Threads.Invariant.{IsWaiting, stage, away}
use monya.Scheduler.Threads.Barrier.{
  wait4completion-IsWaiting, inc_pending_never_wraps, dec_pending_never_wraps, RunThrows-in_build,
  wake_not_lost,
}
use monya.Scheduler.Threads.Ending.{is_ending}
use monya.Scheduler.Threads.Progress.{CanMove, wait4completion-CanMove}
use monya.Scheduler.Threads.Schedule.{play, times, thread, main, destroy, History}

-- One thread goes into `wait` before the scheduler looks, and the scheduler passes its barrier.
abbrev past_first_barrier : History 1
past_first_barrier = play 1 (times 7 (thread 0) (main ∷ []))

passed : past_first_barrier.last.pc ≡ idle
unfolding play times
passed = refl

wait4completion-IsWaiting_example :
    (past_first_barrier.last.pending ≡ 0) × IsWaiting (past_first_barrier.last.workers 0)
unfolding play times
wait4completion-IsWaiting_example =
    wait4completion-IsWaiting (omega arith) past_first_barrier.reach refl 0 (omega arith)

-- The only thread runs a level, while the scheduler blocks at the barrier.
abbrev in_a_level : History 1
in_a_level = play 1 (times 7 (thread 0) (times 10 main (times 5 (thread 0) [])))

in_a_level-pc : (in_a_level.last.pc ≡ parked) × ((in_a_level.last.workers 0).pc ≡ building)
unfolding play times WorkerThread.run_case
in_a_level-pc = (refl, refl)

wait4completion-CanMove_example :
    (i : ℕ) × (i < 1)
    × CanMove in_a_level.last.pending
        (in_a_level.last.workers i).state
        (in_a_level.last.workers i).locked
        (in_a_level.last.workers i).pc
unfolding play times
wait4completion-CanMove_example =
    wait4completion-CanMove (omega arith) in_a_level.reach refl (omega arith)

-- What its task throws ends the process.
RunThrows-in_build_example :
    ((in_a_level.last.workers 0).pc ≡ building)
    × ((in_a_level.last.workers 0).state ≡ build)
    × (0 < in_a_level.last.pending)
    × (is_ending in_a_level.last.pc ≡ false)
unfolding play times WorkerThread.run_case
RunThrows-in_build_example =
    RunThrows-in_build (omega arith) in_a_level.reach 0 (omega arith)
      (task_throws not_implemented_exception)

-- The thread is about to subtract itself from the pending ones.
abbrev before_dec : History 1
before_dec = play 1 (times 3 (thread 0) [])

dec_pending_never_wraps_example : dec_pending before_dec.last.pending + 1 ≡ before_dec.last.pending
unfolding play times
dec_pending_never_wraps_example =
    dec_pending_never_wraps (omega arith) before_dec.reach 0 by_callback (omega arith) refl

-- The scheduler has told the sleeping thread to build, and is about to count it.
abbrev before_inc : History 1
before_inc = play 1 (times 7 (thread 0) (times 4 main []))

inc_pending_never_wraps_example :
    (inc_pending before_inc.last.pending ≡ before_inc.last.pending + 1)
    × (inc_pending before_inc.last.pending ≤ 1)
unfolding play times
inc_pending_never_wraps_example =
    inc_pending_never_wraps (omega arith) before_inc.reach 0 build (omega arith) refl

-- A thread has been told to build, and sleeps until it is signalled.
abbrev before_signal : History 1
before_signal = play 1 (times 7 (thread 0) (times 5 main []))

wake_not_lost_example : stage before_signal.last.pc 0 ≢ away
unfolding play times
wake_not_lost_example =
    wake_not_lost (omega arith) before_signal.reach 0 by_callback refl (ground arith)

-- The scheduler has seen a pending thread; the thread's signal comes before the scheduler blocks.
-- Both sleep then, with no thread pending, and nothing but a spurious wake-up ends that.
abbrev lost_signal : History 1
lost_signal = play 1 (main ∷ times 7 (thread 0) (main ∷ []))

lost_signal_state :
    (lost_signal.last.pc ≡ parked)
    × (lost_signal.last.pending ≡ 0)
    × ((lost_signal.last.workers 0).pc ≡ asleep by_callback)
    × ((lost_signal.last.workers 0).state ≡ wait)
unfolding play times
lost_signal_state = (refl, refl, refl, refl)

-- The scheduler has deleted its thread object, whose thread is about to lock the mutex in it.
abbrev deleted_early : History 1
deleted_early = play 1 (times 7 (thread 0) (main ∷ destroy ∷ times 8 main []))

deleted_early_state :
    (deleted_early.last.pc ≡ gone) × ((deleted_early.last.workers 0).pc ≡ woken by_callback)
unfolding play times
deleted_early_state = (refl, refl)
