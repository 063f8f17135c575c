-- ===== src/Scheduler/Threads/Progress.antt =====
-- The barrier is not stuck while a thread is pending.
use monya.Prelude.{
  ℕ, ◌<◌, ◌^◌, ◌≡◌, ◌≢◌, refl, sym, ap, subst, ◌∙◌, Bool, true, false, ◌⊎◌, inl, inr, arith,
}
use monya.WorkerThread.{
  ThreadState, wait, exit, Worker, WorkerPc, WorkerMove, Signal, Caller, read_wait, acquire,
  set_wait, dec_ppt, read_ppt, signal_parent, read_state, asleep, woken, release, read_exit,
  running, building, exited, thrown, sees_wait, sees_other, lock, store_wait, decrement, signal,
  relock, told, unlock, stay, switch, built,
}
use monya.Scheduler.Threads.{System, parked, Reach}
use monya.Scheduler.Threads.Count.{total-some}
use monya.Scheduler.Threads.Invariant.{away, Fits, share, share_at, stage}
use monya.Scheduler.Threads.Kept.{Reach-Inv}
use monya.Scheduler.Threads.Ending.{is_ending, Reach-Ending}

wait-cases : (st : ThreadState) → (st ≡ wait) ⊎ (st ≢ wait)
wait-cases wait = inl refl
wait-cases st = inr (ground arith)

false≢true : false ≢ true
false≢true e = ground arith

-- A thread in state `st` at `p` has a move, and does not sleep.
pub record CanMove (n : ℕ) (st : ThreadState) (l : Bool) (p : WorkerPc) : Type 0 where
  pub pending : ℕ
  pub sent : Signal
  pub after : Worker
  pub move : WorkerMove n st l p pending sent after
  pub awake : (c : Caller) → p ≢ asleep c

can_by :
    {n n' : ℕ} {st : ThreadState} {l : Bool} {p : WorkerPc} {g : Signal} {w : Worker}
    → WorkerMove n st l p n' g w
    → ((c : Caller) → p ≢ asleep c)
    → CanMove n st l p
can_by mv awake = record { pending = _; sent = _; after = _; move = mv; awake = awake }

module _ (n : ℕ) (st : ThreadState) (l : Bool) where
  can_move : (p : WorkerPc) → Fits away st l p → share away st p ≢ 0 → st ≢ exit → CanMove n st l p
  can_move read_wait f h x = elim (wait-cases st) [
    | inl e ↦ can_by (sees_wait e) (λ c. ground arith)
    | inr e ↦ can_by (sees_other e) (λ c. ground arith)
  ]
  can_move (acquire c) f h x = can_by (lock c f.mutex) (λ c. ground arith)
  can_move (set_wait c) f h x = can_by (store_wait c) (λ c. ground arith)
  can_move (dec_ppt c) f h x = can_by (decrement c) (λ c. ground arith)
  can_move (read_ppt c) f h x = absurd (ground (arith, f.told))
  can_move (signal_parent c) f h x = can_by (signal c) (λ c. ground arith)
  can_move (read_state c) f h x = can_by (told c (ground arith)) (λ c. ground arith)
  can_move (asleep c) f h x = absurd (ground (arith, f.signalled))
  can_move (woken c) f h x = can_by (relock c f.mutex) (λ c. ground arith)
  can_move (release c) f h x = can_by (unlock c) (λ c. ground arith)
  can_move read_exit f h x = can_by (stay x) (λ c. ground arith)
  can_move running f h x = can_by switch (λ c. ground arith)
  can_move building f h x = can_by built (λ c. ground arith)
  can_move exited f h x = absurd (x f.told)
  can_move thrown f h x = absurd f.told

-- While the scheduler blocks at its barrier and some thread is pending, there is a thread that does
-- not sleep and can move.
pub wait4completion-CanMove :
    {n : ℕ} {s : System}
    → n < 2 ^ 32
    → Reach n s
    → s.pc ≡ parked
    → s.pending ≢ 0
    → (i : ℕ) × (i < n)
      × CanMove s.pending (s.workers i).state (s.workers i).locked (s.workers i).pc
wait4completion-CanMove {n} {s} few r e some =
    let inv = Reach-Inv few r in
    let (i, lt, counted) = total-some n (share_at s.pc s.workers) (λ z. some (inv.count ∙ z)) in
    let w : Worker = s.workers i in
    let here : stage s.pc i ≡ away = ap (λ q. stage q i) e in
    let fits : Fits away w.state w.locked w.pc =
      subst (λ g. Fits g w.state w.locked w.pc) here (inv.fits i) in
    let pends : share away w.state w.pc ≢ 0 = subst (λ g. share g w.state w.pc ≢ 0) here counted in
    let stays : w.state ≢ exit = λ x. false≢true (sym (ap is_ending e) ∙ Reach-Ending r i x) in
    (i, lt, can_move s.pending w.state w.locked w.pc fits pends stays)
