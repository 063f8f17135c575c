-- ===== src/Scheduler/Threads/Kept.antt =====
-- Every step keeps the invariant.
use monya.Prelude.{ℕ, ◌+◌, ◌≤◌, ◌<◌, ◌^◌, ◌≡◌, refl, ap, sym, subst, ◌∙◌, arith}
use monya.WorkerThread.{ThreadState, exit, Worker, Signal, signals, inc_pending}
use monya.Scheduler.Threads.{
  System, SchedulerPc, SchedulerMove, idle, read_pending, park, parked, lock_state, inc_ppt,
  unlock_state, delete_thread, resume, after_wake, order, none_pending, some_pending, block,
  spurious_end, take_lock, set_order, increment, give_lock, notify, all_woken, delete_one,
  all_deleted, Step, worker, scheduler, Reach, start, later, init,
}
use monya.Scheduler.Threads.Count.{total-same, total-zero, total-ones, update-same}
use monya.Scheduler.Threads.Invariant.{
  Inv, away, has_lock, has_stored, has_counted, has_unlocked, IsWaiting, share, share_at, stage,
  first_waiting, Sound,
}
use monya.Scheduler.Threads.Wake.{
  lock-Fits, store-Fits, count-Fits, unlock-Fits, wake-Fits, store-share, count-share, wake-share,
}
use monya.Scheduler.Threads.Change.{pending-lt, fits_at, worker-Inv, change-Inv}

-- A signal changes nothing that the invariant speaks of.
resume-Inv :
    {n pending : ℕ} {ws : ℕ → Worker} (g : Signal) (pc : SchedulerPc)
    → Inv n (record { pending = pending; pc = pc; workers = ws })
    → Inv n (record { pending = pending; pc = resume g pc; workers = ws })
resume-Inv signals parked inv = record {
  count = inv.count;
  fits = inv.fits;
  behind = inv.behind;
  sound = tt;
}
resume-Inv g pc inv = inv

stage-has_stored : (st : ThreadState) (i : ℕ) → stage (inc_ppt st i) i ≡ has_stored
stage-has_stored st i = ground arith

-- After `wake4run` no thread is being woken.
after_wake_lem :
    (n : ℕ) (st : ThreadState)
    → ((k : ℕ) → stage (after_wake st) k ≡ away)
      × (first_waiting n (after_wake st) ≡ n)
      × Sound n (after_wake st)
after_wake_lem n exit = (λ k. refl, refl, tt)
after_wake_lem n st = (λ k. refl, refl, tt)

share-IsWaiting : (w : Worker) → share away w.state w.pc ≡ 0 → IsWaiting w
share-IsWaiting w h = ground arith

module _ {n pending : ℕ} {ws : ℕ → Worker} where
  -- the barrier: no thread is pending
  past_barrier :
      pending ≡ 0
      → Inv n (record { pending = pending; pc = read_pending; workers = ws })
      → Inv n (record { pending = pending; pc = idle; workers = ws })
  past_barrier none inv = record {
    count = inv.count;
    fits = inv.fits;
    behind = λ i lt h.
        share-IsWaiting (ws i) (total-zero n (share_at idle ws) (sym inv.count ∙ none) i lt);
    sound = tt;
  }

  -- the scheduler moves, where its place says nothing of the threads
  elsewhere :
      (pc : SchedulerPc) {pc' : SchedulerPc}
      → Inv n (record { pending = pending; pc = pc; workers = ws })
      → ((i : ℕ) → stage pc' i ≡ stage pc i)
      → ((i : ℕ) → i < n → first_waiting n pc' ≤ i → first_waiting n pc ≤ i)
      → Sound n pc'
      → Inv n (record { pending = pending; pc = pc'; workers = ws })
  elsewhere pc inv same first sound = record {
    count =
        inv.count
        ∙ total-same n _ _ (λ k lt. ap (λ g. share g (ws k).state (ws k).pc) (sym (same k)));
    fits = λ i. rw (same i) (inv.fits i);
    behind = λ i lt h. inv.behind i lt (first i lt h);
    sound = sound;
  }

  scheduler-Inv :
      {pc : SchedulerPc} {pending' : ℕ} {pc' : SchedulerPc} {ws' : ℕ → Worker}
      → n < 2 ^ 32
      → Inv n (record { pending = pending; pc = pc; workers = ws })
      → SchedulerMove n pending ws pc pending' pc' ws'
      → Inv n (record { pending = pending'; pc = pc'; workers = ws' })
  scheduler-Inv few inv (order {state} o) = elsewhere idle inv (λ i. refl) (λ i lt h. h) o
  scheduler-Inv few inv (none_pending e) = past_barrier e inv
  scheduler-Inv few inv (some_pending e) = elsewhere read_pending inv (λ i. refl) (λ i lt h. h) tt
  scheduler-Inv few inv block = elsewhere park inv (λ i. refl) (λ i lt h. h) tt
  scheduler-Inv few inv spurious_end = elsewhere parked inv (λ i. refl) (λ i lt h. h) tt
  scheduler-Inv few inv (take_lock {state} {i} lt free) =
      let (a, b) = inv.behind i lt (omega arith) in
      change-Inv inv {g0 = away} {g = has_lock} (record {
        lt = lt;
        before = refl;
        after = ground arith;
        others = λ k other. ground arith;
        fits = lock-Fits free a b (inv.fits i);
        counted = refl;
        waiting = λ h. absurd (omega arith);
        first = λ k other h. omega arith;
        sound = (inv.sound, lt);
      })
  scheduler-Inv few inv (set_order {state} {i}) =
      change-Inv inv {g0 = has_lock} {g = has_stored} (record {
        lt = inv.sound.1;
        before = ground arith;
        after = ground arith;
        others = λ k other. ground arith;
        fits = store-Fits state inv.sound.0 (fits_at inv i has_lock (ground arith));
        counted =
            ap (◌+◌ pending) (sym (store-share state (fits_at inv i has_lock (ground arith))));
        waiting = λ h. absurd (omega arith);
        first = λ k other h. h;
        sound = inv.sound;
      })
  scheduler-Inv few inv (increment {state} {i}) =
      let f = fits_at inv i has_stored (ground arith) in
      subst
        (λ v.
          Inv n (record { pending = inc_pending pending; pc = unlock_state state i; workers = v }))
        (update-same ws i)
        (change-Inv inv {g0 = has_stored} {g = has_counted} (record {
          lt = inv.sound.1;
          before = ground arith;
          after = ground arith;
          others = λ k other. ground arith;
          fits = count-Fits f;
          counted = omega (
            arith,
            (count-share f).0,
            (count-share f).1,
            pending-lt inv i inv.sound.1 (rw (stage-has_stored state i) (count-share f).0),
          );
          waiting = λ h. absurd (omega arith);
          first = λ k other h. h;
          sound = inv.sound;
        }))
  scheduler-Inv few inv (give_lock {state} {i}) =
      change-Inv inv {g0 = has_counted} {g = has_unlocked} (record {
        lt = inv.sound.1;
        before = ground arith;
        after = ground arith;
        others = λ k other. ground arith;
        fits = unlock-Fits (fits_at inv i has_counted (ground arith));
        counted = refl;
        waiting = λ h. absurd (omega arith);
        first = λ k other h. h;
        sound = inv.sound;
      })
  scheduler-Inv few inv (notify {state} {i}) =
      change-Inv inv {g0 = has_unlocked} {g = away} (record {
        lt = inv.sound.1;
        before = ground arith;
        after = refl;
        others = λ k other. ground arith;
        fits =
            wake-Fits (ws i).state (ws i).locked (ws i).pc
              (fits_at inv i has_unlocked (ground arith));
        counted = ap (◌+◌ pending) (sym (wake-share (ws i).state (ws i).pc));
        waiting = λ h. absurd (omega arith);
        first = λ k other h. h;
        sound = inv.sound.0;
      })
  scheduler-Inv few inv (all_woken {state} {i} h) =
      let (away_all, from_n, sound) = after_wake_lem n state in
      elsewhere (lock_state state i) inv away_all (λ k lt first. absurd (omega (arith, from_n)))
        sound
  scheduler-Inv few inv (delete_one {i} h) =
      elsewhere (delete_thread i) inv (λ i. refl) (λ i lt h. h) tt
  scheduler-Inv few inv (all_deleted {i} h) =
      elsewhere (delete_thread i) inv (λ i. refl) (λ i lt h. h) tt

pub Step-Inv : {n : ℕ} {s t : System} → n < 2 ^ 32 → Inv n s → Step n s t → Inv n t
Step-Inv few inv (worker i {pending} {g} lt mv) = resume-Inv g _ (worker-Inv inv few i lt mv)
Step-Inv few inv (scheduler mv) = scheduler-Inv few inv mv

init-Inv : (n : ℕ) → Inv n (init n)
init-Inv n = record {
  count = sym (total-ones n);
  fits = λ i. record { mutex = refl; alone = refl; told = refl; woken = tt; signalled = tt };
  behind = λ i lt h. absurd (omega arith);
  sound = tt;
}

pub Reach-Inv : {n : ℕ} {s : System} → n < 2 ^ 32 → Reach n s → Inv n s
Reach-Inv {n} few start = init-Inv n
Reach-Inv few (later r st) = Step-Inv few (Reach-Inv few r) st
