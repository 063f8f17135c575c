-- ===== src/Scheduler/Threads/Barrier.antt =====
-- What holds in every reachable state of the scheduler and its threads.
use monya.Prelude.{
  ℕ, ◌+◌, ◌≤◌, ◌<◌, ◌^◌, ◌≡◌, ◌≢◌, refl, sym, ap, ◌∙◌, arith, Error, true, false, Bool-cases, inl,
  inr,
}
use monya.WorkerThread.{
  Caller, ThreadState, test, build, query, wait, exit, Worker, WorkerPc, asleep, building, dec_ppt,
  inc_pending, dec_pending, run_case, RunThrows, switch_throws, task_throws,
}
use monya.Scheduler.Threads.{System, SchedulerPc, idle, inc_ppt, Reach}
use monya.Scheduler.Threads.Count.{total-zeros}
use monya.Scheduler.Threads.Invariant.{
  Stage, away, has_stored, IsWaiting, share, share_at, stage, Told, Signalled,
}
use monya.Scheduler.Threads.Change.{pending-le, pending-lt, share-pending, fits_at}
use monya.Scheduler.Threads.Wake.{count-share}
use monya.Scheduler.Threads.Ending.{is_ending, ends, Reach-Ended}
use monya.Scheduler.Threads.Kept.{Reach-Inv}

IsWaiting-share : (g : Stage) (w : Worker) → IsWaiting w → share g w.state w.pc ≡ 0
IsWaiting-share g w h = ground (arith, h.0, h.1)

asleep-Signalled :
    (g : Stage) (st : ThreadState) (p : WorkerPc) (c : Caller)
    → Signalled g st p
    → g ≡ away
    → p ≡ asleep c
    → st ≡ wait
asleep-Signalled g st p c h e f = ground (arith, h)

-- Once the scheduler is past a barrier, no thread is pending, and each thread has gone into `wait`
-- and is still to be woken: none of them works on a task.
pub wait4completion-IsWaiting :
    {n : ℕ} {s : System}
    → n < 2 ^ 32
    → Reach n s
    → s.pc ≡ idle
    → (i : ℕ) → i < n
    → (s.pending ≡ 0) × IsWaiting (s.workers i)
wait4completion-IsWaiting {n} {s} few r e i lt =
    let inv = Reach-Inv few r in
    let all : (k : ℕ) → k < n → IsWaiting (s.workers k) = λ k h. inv.behind k h (ground arith) in
    (
      inv.count
          ∙ total-zeros n (share_at s.pc s.workers)
              (λ k h. IsWaiting-share (stage s.pc k) (s.workers k) (all k h)),
      all i lt,
    )

stage-inc_ppt :
    (st : ThreadState) (i : ℕ) (pc : SchedulerPc) → pc ≡ inc_ppt st i → stage pc i ≡ has_stored
stage-inc_ppt st i pc e = rw e (ground arith)

dec-share :
    (g : Stage) (st : ThreadState) (p : WorkerPc) (c : Caller) → p ≡ dec_ppt c → 1 ≤ share g st p
dec-share has_stored st p c e = rw e (ground arith)
dec-share g st p c e = rw e (ground arith)

-- In a reachable state of fewer than 2 ^ 32 threads, the scheduler adds a thread to the pending ones
-- without a wrap of the counter, which is then at most the number of threads.
pub inc_pending_never_wraps :
    {n : ℕ} {s : System}
    → n < 2 ^ 32
    → Reach n s
    → (i : ℕ) (st : ThreadState) → i < n
    → s.pc ≡ inc_ppt st i
    → (inc_pending s.pending ≡ s.pending + 1) × (inc_pending s.pending ≤ n)
inc_pending_never_wraps {n} {s} few r i st lt e =
    let inv = Reach-Inv few r in
    let g = stage-inc_ppt st i s.pc e in
    let none = (count-share (fits_at inv i has_stored g)).0 in
    let room = pending-lt inv i lt (rw g none) in
    (omega (arith, few, room), omega (arith, few, room))

-- In a reachable state of fewer than 2 ^ 32 threads, a thread that is about to subtract itself from the
-- pending ones makes the counter one less: it does not wrap below 0.
pub dec_pending_never_wraps :
    {n : ℕ} {s : System}
    → n < 2 ^ 32
    → Reach n s
    → (i : ℕ) (c : Caller) → i < n
    → (s.workers i).pc ≡ dec_ppt c
    → dec_pending s.pending + 1 ≡ s.pending
dec_pending_never_wraps {s} few r i c lt e =
    let inv = Reach-Inv few r in
    omega (
      arith,
      few,
      pending-le inv,
      share-pending inv i lt,
      dec-share (stage s.pc i) (s.workers i).state (s.workers i).pc c e,
    )

true≢false : true ≢ false
true≢false e = ground arith

Told-RunThrows :
    {st : ThreadState} {p : WorkerPc} {e : Error}
    → RunThrows st p e
    → Told st p
    → (p ≡ building) × (st ≡ build)
unfolding run_case
Told-RunThrows (task_throws e) t = (refl, t)
Told-RunThrows {st = test} (switch_throws e) t = cc
Told-RunThrows {st = build} (switch_throws e) t = cc
Told-RunThrows {st = query} (switch_throws e) t = absurd (ground (arith, t))
Told-RunThrows {st = wait} (switch_throws e) t = absurd (ground (arith, t))
Told-RunThrows {st = exit} (switch_throws e) t = absurd (t.1 refl)

share-building : (g : Stage) (st : ThreadState) (p : WorkerPc) → p ≡ building → 1 ≤ share g st p
share-building has_stored st p e = rw e (ground arith)
share-building g st p e = rw e (ground arith)

-- In a reachable state of fewer than 2 ^ 32 threads, an exception other than that of a failing call of
-- pthread leaves `run` of a thread only from the tasks of a BUILD: the throws of the `switch` are not
-- reached. The thread is then pending, and `destroy_threads` has not begun.
pub RunThrows-in_build :
    {n : ℕ} {s : System}
    → n < 2 ^ 32
    → Reach n s
    → (i : ℕ) → i < n
    → {e : Error} → RunThrows (s.workers i).state (s.workers i).pc e
    → ((s.workers i).pc ≡ building)
      × ((s.workers i).state ≡ build)
      × (0 < s.pending)
      × (is_ending s.pc ≡ false)
RunThrows-in_build {n} {s} few r i lt throws =
    let inv = Reach-Inv few r in
    let (at, order) = Told-RunThrows throws (inv.fits i).told in
    (
      at,
      order,
      omega (
        arith,
        share-pending inv i lt,
        share-building (stage s.pc i) (s.workers i).state (s.workers i).pc at,
      ),
      elim (Bool-cases (is_ending s.pc)) [
        | inl ending ↦
            let over = Reach-Ended few r ending i lt in
            absurd (true≢false (sym over ∙ ap ends order))
        | inr not_ending ↦ not_ending
      ],
    )

-- No wake-up of a thread is lost.
pub wake_not_lost :
    {n : ℕ} {s : System}
    → n < 2 ^ 32
    → Reach n s
    → (i : ℕ) (c : Caller) → (s.workers i).pc ≡ asleep c
    → (s.workers i).state ≢ wait
    → stage s.pc i ≢ away
wake_not_lost {s} few r i c e told at_away =
    let f = (Reach-Inv few r).fits i in
    told
      (asleep-Signalled (stage s.pc i) (s.workers i).state (s.workers i).pc c f.signalled at_away e)
