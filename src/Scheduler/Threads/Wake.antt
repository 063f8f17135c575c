-- ===== src/Scheduler/Threads/Wake.antt =====
-- What each access of `wake` does to its thread's part of the invariant.
use monya.Prelude.{◌≡◌, refl, Bool, true, false, arith}
use monya.WorkerThread.{ThreadState, wait, WorkerPc, asleep, wake_up}
use monya.Scheduler.Threads.{is_order}
use monya.Scheduler.Threads.Invariant.{
  away, has_lock, has_stored, has_counted, has_unlocked, Fits, in_wait, share,
}

module _ {st : ThreadState} {p : WorkerPc} where
  pub lock-Fits :
      {l : Bool}
      → l ≡ false
      → in_wait p ≡ true
      → st ≡ wait
      → Fits away st l p
      → Fits has_lock st true p
  lock-Fits free a b f = record {
    mutex = ground (arith, f.mutex);
    alone = ground (arith, f.mutex);
    told = f.told;
    woken = (a, b);
    signalled = tt;
  }

  pub store-Fits :
      {l : Bool} (new : ThreadState)
      → is_order new ≡ true
      → Fits has_lock st l p
      → Fits has_stored new l p
  store-Fits new o f = record {
    mutex = f.mutex;
    alone = f.alone;
    told = ground (arith, f.alone, f.woken, o);
    woken = (f.woken.0, o);
    signalled = tt;
  }

  pub count-Fits : {l : Bool} → Fits has_stored st l p → Fits has_counted st l p
  count-Fits f = record {
    mutex = f.mutex;
    alone = f.alone;
    told = f.told;
    woken = f.woken;
    signalled = tt;
  }

  pub unlock-Fits : {l : Bool} → Fits has_counted st l p → Fits has_unlocked st false p
  unlock-Fits f = record {
    mutex = ground (arith, f.alone);
    alone = ground arith;
    told = f.told;
    woken = tt;
    signalled = tt;
  }

  -- Storing an order changes no share, counting it adds 1.
  pub store-share :
      {l : Bool} (new : ThreadState)
      → Fits has_lock st l p
      → share has_stored new p ≡ share has_lock st p
  store-share new f = ground (arith, f.woken)

  pub count-share :
      {l : Bool}
      → Fits has_stored st l p
      → (share has_stored st p ≡ 0) × (share has_counted st p ≡ 1)
  count-share f = (ground (arith, f.woken), ground (arith, f.woken))

-- The signal leaves a thread that does not sleep as it is.
pub wake-Fits :
    (st : ThreadState) (l : Bool) (p : WorkerPc)
    → Fits has_unlocked st l p
    → Fits away st l (wake_up p)
wake-Fits st l (asleep c) f = record {
  mutex = f.mutex;
  alone = f.alone;
  told = f.told;
  woken = tt;
  signalled = tt;
}
wake-Fits st l p f = record {
  mutex = f.mutex;
  alone = f.alone;
  told = f.told;
  woken = tt;
  signalled = tt;
}

pub wake-share :
    (st : ThreadState) (p : WorkerPc) → share away st (wake_up p) ≡ share has_unlocked st p
wake-share st (asleep c) = refl
wake-share st p = refl
