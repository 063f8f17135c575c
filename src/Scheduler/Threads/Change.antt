-- ===== src/Scheduler/Threads/Change.antt =====
-- A change at one thread keeps the invariant.
use monya.Prelude.{ℕ, ◌+◌, ◌≤◌, ◌<◌, ◌^◌, ◌≡◌, ◌≢◌, refl, ap, subst, arith, update}
use monya.WorkerThread.{Worker, WorkerMove, Signal}
use monya.Scheduler.Threads.{System, SchedulerPc}
use monya.Scheduler.Threads.Count.{
  total, total-change, total-term, total-le, total-lt, update-all, update-here, update-other,
}
use monya.Scheduler.Threads.Invariant.{
  Inv, Stage, has_stored, FitsWorker, IsWaiting, share, share_at, stage, first_waiting, Sound,
}
use monya.Scheduler.Threads.Moves.{Move-Fits, Move-share, Move-IsWaiting}

share-le : (g : Stage) (w : Worker) → share g w.state w.pc ≤ 1
share-le has_stored w = ground arith
share-le g w = ground arith

-- the system after a change at one thread
abbrev pub changed : ℕ → SchedulerPc → (ℕ → Worker) → ℕ → Worker → System
changed pending pc ws i w = record { pending = pending; pc = pc; workers = update ws i w }

-- What a change at thread `i` has to keep, where the scheduler's stage there goes from `g0` to `g`.
pub record Change (n : ℕ) (s : System) (i : ℕ) (g0 g : Stage) (pending : ℕ) (pc : SchedulerPc)
    (w : Worker) : Type 0 where
  pub lt : i < n
  pub before : stage s.pc i ≡ g0
  pub after : stage pc i ≡ g
  pub others : (k : ℕ) → k ≢ i → stage pc k ≡ stage s.pc k
  pub fits : FitsWorker g w
  pub counted :
      pending + share g0 (s.workers i).state (s.workers i).pc ≡ s.pending + share g w.state w.pc
  pub waiting : first_waiting n pc ≤ i → IsWaiting w
  pub first : (k : ℕ) → k ≢ i → first_waiting n pc ≤ k → first_waiting n s.pc ≤ k
  pub sound : Sound n pc

module _ {n : ℕ} {s : System} (inv : Inv n s) where
  pub pending-le : s.pending ≤ n
  pending-le = omega (
    arith,
    inv.count,
    total-le n (share_at s.pc s.workers) (λ i. share-le (stage s.pc i) (s.workers i)),
  )

  -- A thread that is not counted leaves room.
  pub pending-lt : (i : ℕ) → i < n → share_at s.pc s.workers i ≡ 0 → s.pending < n
  pending-lt i lt none = omega (
    arith,
    inv.count,
    total-lt n (share_at s.pc s.workers) (λ k. share-le (stage s.pc k) (s.workers k)) i lt none,
  )

  pub share-pending : (i : ℕ) → i < n → share_at s.pc s.workers i ≤ s.pending
  share-pending i lt = omega (arith, inv.count, total-term n (share_at s.pc s.workers) i lt)

  pub fits_at : (i : ℕ) (g : Stage) → stage s.pc i ≡ g → FitsWorker g (s.workers i)
  fits_at i g e = subst (λ h. FitsWorker h (s.workers i)) e (inv.fits i)

  module _ {i : ℕ} {g0 g : Stage} {pending : ℕ} {pc : SchedulerPc} {w : Worker}
      (c : Change n s i g0 g pending pc w) where
    change-count : pending ≡ total n (share_at pc (update s.workers i w))
    change-count = omega (
      arith,
      inv.count,
      c.counted,
      total-change n (share_at s.pc s.workers) (share_at pc (update s.workers i w)) i
          (λ k other. rw (update-other s.workers i w k other, c.others k other) refl) c.lt,
      ap (λ v. share (stage pc i) v.state v.pc) (update-here s.workers i w),
      ap (λ h. share h w.state w.pc) c.after,
      ap (λ h. share h (s.workers i).state (s.workers i).pc) c.before,
    )

    pub change-Inv : Inv n (changed pending pc s.workers i w)
    change-Inv = record {
      count = change-count;
      fits =
          update-all (λ k v. FitsWorker (stage pc k) v) s.workers i w (rw c.after c.fits)
            (λ k other. rw (c.others k other) (inv.fits k));
      behind =
          update-all (λ k v. k < n → first_waiting n pc ≤ k → IsWaiting v) s.workers i w
            (λ kn. c.waiting) (λ k other kn h. inv.behind k kn (c.first k other h));
      sound = c.sound;
    }

  pub worker-Inv :
      (few : n < 2 ^ 32) (i : ℕ) {pending : ℕ} {g : Signal} {w : Worker}
      → i < n
      → WorkerMove s.pending (s.workers i).state (s.workers i).locked (s.workers i).pc pending g w
      → Inv n (changed pending s.pc s.workers i w)
  worker-Inv few i {pending} {w} lt mv = change-Inv (record {
    lt = lt;
    before = refl;
    after = refl;
    others = λ k other. refl;
    fits = Move-Fits (stage s.pc i) (inv.fits i) mv;
    counted =
        Move-share (stage s.pc i) (inv.fits i) (omega (arith, pending-le)) (share-pending i lt) mv;
    waiting = λ h. let (a, b) = inv.behind i lt h in Move-IsWaiting a b mv;
    first = λ k other h. h;
    sound = inv.sound;
  })
