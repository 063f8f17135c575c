-- ===== src/Scheduler/Threads/Moves.antt =====
-- A move of a worker keeps what ties its mutex, its state and its share together.
use monya.Prelude.{ℕ, ◌+◌, ◌≤◌, ◌<◌, ◌^◌, ◌≡◌, ◌≢◌, refl, Bool, ◌⊎◌, inl, inr, true, false, arith}
use monya.WorkerThread.{
  ThreadState, test, build, query, wait, exit, Worker, WorkerPc, WorkerMove, Signal, run_case,
  run_pc, acquire, running, building, by_run, sees_wait, sees_other, lock, decrement, is_last,
  is_not_last, sleep, relock, told, leave, stay, switch,
}
use monya.Scheduler.Threads.{is_order}
use monya.Scheduler.Threads.Invariant.{Stage, Fits, FitsWorker, in_wait, share, IsWaiting}

-- the premise of a move
abbrev Guard :
    {n n' : ℕ} {st : ThreadState} {l : Bool} {p : WorkerPc} {s : Signal} {w : Worker}
    → WorkerMove n st l p n' s w
    → Type 0
Guard {st} (sees_wait _) = st ≡ wait
Guard {st} (sees_other _) = st ≢ wait
Guard {l} (lock c _) = l ≡ false
Guard {n} (is_last c _) = n ≡ 0
Guard {n} (is_not_last c _) = n ≢ 0
Guard {st} (sleep c _) = st ≡ wait
Guard {l} (relock c _) = l ≡ false
Guard {st} (told c _) = st ≢ wait
Guard {st} (leave _) = st ≡ exit
Guard {st} (stay _) = st ≢ exit
Guard _ = Unit

guard :
    {n n' : ℕ} {st : ThreadState} {l : Bool} {p : WorkerPc} {s : Signal} {w : Worker}
    (mv : WorkerMove n st l p n' s w)
    → Guard mv
guard (sees_wait e) = e
guard (sees_other e) = e
guard (lock c e) = e
guard (is_last c e) = e
guard (is_not_last c e) = e
guard (sleep c e) = e
guard (relock c e) = e
guard (told c e) = e
guard (leave e) = e
guard (stay e) = e
guard _ = tt

-- An order other than EXIT is run, and `wait` follows.
run_case-order :
    (st : ThreadState)
    → is_order st ≡ true
    → st ≢ exit
    → (run_pc (run_case st) ≡ acquire by_run) ⊎ ((run_pc (run_case st) ≡ building) × (st ≡ build))
unfolding run_case
run_case-order test o e = inl refl
run_case-order build o e = inr (refl, refl)
run_case-order query o e = absurd (ground arith)
run_case-order wait o e = absurd (ground arith)
run_case-order exit o e = absurd (e refl)

-- `run` leaves the mutex and the state alone.
leave_switch :
    {st : ThreadState} {l : Bool} (g : Stage) (p : WorkerPc)
    → Fits g st l running
    → (p ≡ acquire by_run) ⊎ ((p ≡ building) × (st ≡ build))
    → Fits g st l p
leave_switch g p f (inl e) = rw e (record {
  mutex = f.mutex;
  alone = refl;
  told = tt;
  woken = ground (arith, f.woken);
  signalled = ground arith;
})
leave_switch g p f (inr (e, order)) = rw e (record {
  mutex = f.mutex;
  alone = refl;
  told = order;
  woken = ground (arith, f.woken);
  signalled = ground arith;
})

share_switch :
    (st : ThreadState) (g : Stage) (p : WorkerPc)
    → (p ≡ acquire by_run) ⊎ ((p ≡ building) × (st ≡ build))
    → share g st p ≡ share g st running
share_switch st g p (inl e) = rw e (ground arith)
share_switch st g p (inr (e, order)) = rw e (ground arith)

module _ {n : ℕ} {st : ThreadState} {l : Bool} where
  pub Move-Fits :
      {n' : ℕ} {p : WorkerPc} {s : Signal} {w : Worker} (g : Stage)
      → Fits g st l p
      → WorkerMove n st l p n' s w
      → FitsWorker g w
  Move-Fits g f switch =
      leave_switch g (run_pc (run_case st)) f (run_case-order st f.told.0 f.told.1)
  Move-Fits g f mv = record {
    mutex = ground (arith, guard mv, f.mutex, f.alone);
    alone = ground (arith, guard mv, f.mutex, f.alone);
    told = ground (arith, guard mv, f.told);
    woken = ground (arith, guard mv, f.mutex, f.alone, f.woken);
    signalled = ground (arith, guard mv, f.signalled);
  }

  -- Only `dec_ppt` changes the number of pending threads, by what the thread's own share loses.
  pub Move-share :
      {n' : ℕ} {p : WorkerPc} {s : Signal} {w : Worker} (g : Stage)
      → Fits g st l p
      → n < 2 ^ 32
      → share g st p ≤ n
      → WorkerMove n st l p n' s w
      → n' + share g st p ≡ n + share g w.state w.pc
  Move-share g f h le (decrement c) = ground (arith, f.told, f.alone)
  Move-share g f h le switch =
      omega (arith, share_switch st g (run_pc (run_case st)) (run_case-order st f.told.0 f.told.1))
  Move-share g f h le mv = ground (arith, guard mv, f.told, f.alone)

  pub Move-IsWaiting :
      {n' : ℕ} {p : WorkerPc} {s : Signal} {w : Worker}
      → in_wait p ≡ true
      → st ≡ wait
      → WorkerMove n st l p n' s w
      → IsWaiting w
  Move-IsWaiting a b switch = absurd (ground arith)
  Move-IsWaiting a b mv = ground (arith, guard mv)
