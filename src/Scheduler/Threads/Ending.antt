-- ===== src/Scheduler/Threads/Ending.antt =====
-- A thread is told EXIT only when the scheduler is being destroyed.
use monya.Prelude.{ℕ, ◌<◌, ◌^◌, ◌≡◌, refl, sym, ◌∙◌, Bool, true, false, arith}
use monya.WorkerThread.{
  ThreadState, wait, exit, Worker, WorkerPc, WorkerMove, Signal, signals, store_wait,
}
use monya.Scheduler.Threads.{
  System, SchedulerPc, SchedulerMove, lock_state, set_state, inc_ppt, unlock_state, signal_thread,
  delete_thread, gone, parked, resume, worker, scheduler, Reach, start, later, all_woken,
  after_wake, set_order, take_lock, give_lock, notify, order, increment, delete_one, all_deleted,
  idle,
}
use monya.Scheduler.Threads.Count.{update-all}
use monya.Scheduler.Threads.Kept.{Reach-Inv}

abbrev is_exit : ThreadState → Bool
is_exit exit = true
is_exit _ = false

abbrev pub ends : ThreadState → Bool
ends exit = true
ends wait = true
ends _ = false

-- `destroy_threads` has begun.
abbrev pub is_ending : SchedulerPc → Bool
is_ending (lock_state st i) = is_exit st
is_ending (set_state st i) = is_exit st
is_ending (inc_ppt st i) = is_exit st
is_ending (unlock_state st i) = is_exit st
is_ending (signal_thread st i) = is_exit st
is_ending (delete_thread i) = true
is_ending gone = true
is_ending _ = false

abbrev pub Ending : System → Type 0
Ending s = (i : ℕ) → (s.workers i).state ≡ exit → is_ending s.pc ≡ true

resume-ending : (g : Signal) (pc : SchedulerPc) → is_ending (resume g pc) ≡ is_ending pc
resume-ending signals parked = refl
resume-ending g pc = refl

-- A worker never tells itself to exit.
worker-exit :
    {n n' : ℕ} {st : ThreadState} {l : Bool} {p : WorkerPc} {g : Signal} {w : Worker}
    → WorkerMove n st l p n' g w
    → w.state ≡ exit
    → st ≡ exit
worker-exit (store_wait c) e = absurd (ground arith)
worker-exit mv e = e

after_wake-ending : (st : ThreadState) → is_ending (after_wake st) ≡ is_exit st
after_wake-ending exit = refl
after_wake-ending st = refl

scheduler-exit :
    {n pending : ℕ} {ws : ℕ → Worker} {pc : SchedulerPc} {pending' : ℕ} {pc' : SchedulerPc}
    {ws' : ℕ → Worker}
    → SchedulerMove n pending ws pc pending' pc' ws'
    → ((i : ℕ) → (ws i).state ≡ exit → is_ending pc ≡ true)
    → (i : ℕ) → (ws' i).state ≡ exit
    → is_ending pc' ≡ true
scheduler-exit (all_woken {state} h) inv i e = rw (after_wake-ending state) (inv i e)
scheduler-exit {ws} (set_order {state} {i = j}) inv i e =
    update-all (λ k v. v.state ≡ exit → is_exit state ≡ true) ws j _ (λ e. ground arith)
      (λ k other. inv k) i e
scheduler-exit {ws} (take_lock {state} {i = j} lt free) inv i e =
    update-all (λ k v. v.state ≡ exit → is_exit state ≡ true) ws j _ (inv j) (λ k other. inv k) i e
scheduler-exit {ws} (give_lock {state} {i = j}) inv i e =
    update-all (λ k v. v.state ≡ exit → is_exit state ≡ true) ws j _ (inv j) (λ k other. inv k) i e
scheduler-exit {ws} (notify {state} {i = j}) inv i e =
    update-all (λ k v. v.state ≡ exit → is_exit state ≡ true) ws j _ (inv j) (λ k other. inv k) i e
scheduler-exit mv inv i e = ground (arith, inv i)

pub Reach-Ending : {n : ℕ} {s : System} → Reach n s → Ending s
Reach-Ending start i e = absurd (ground arith)
Reach-Ending (later {s} r (worker j {g} {w} lt mv)) i e = rw (resume-ending g s.pc) (
    update-all (λ k v. v.state ≡ exit → is_ending s.pc ≡ true) s.workers j w
      (λ x. Reach-Ending r j (worker-exit mv x)) (λ k other. Reach-Ending r k) i e)
Reach-Ending (later r (scheduler mv)) i e = scheduler-exit mv (Reach-Ending r) i e

-- Once `destroy_threads` has begun, a thread has been told EXIT or is still to be told.
abbrev pub Ended : ℕ → System → Type 0
Ended n s = is_ending s.pc ≡ true → (i : ℕ) → i < n → ends (s.workers i).state ≡ true

worker-ends :
    {n n' : ℕ} {st : ThreadState} {l : Bool} {p : WorkerPc} {g : Signal} {w : Worker}
    → WorkerMove n st l p n' g w
    → ends st ≡ true
    → ends w.state ≡ true
worker-ends (store_wait c) e = refl
worker-ends mv e = e

scheduler-ends :
    {n pending : ℕ} {ws : ℕ → Worker} {pc : SchedulerPc} {pending' : ℕ} {pc' : SchedulerPc}
    {ws' : ℕ → Worker}
    → SchedulerMove n pending ws pc pending' pc' ws'
    → (pc ≡ idle → (i : ℕ) → i < n → (ws i).state ≡ wait)
    → (is_ending pc ≡ true → (i : ℕ) → i < n → ends (ws i).state ≡ true)
    → is_ending pc' ≡ true
    → (i : ℕ) → i < n
    → ends (ws' i).state ≡ true
scheduler-ends (order o) waits inv e i lt = rw (waits refl i lt) refl
scheduler-ends (all_woken {state} h) waits inv e i lt = inv (sym (after_wake-ending state) ∙ e) i lt
scheduler-ends {n} {ws} (set_order {state} {i = j}) waits inv e i lt =
    update-all (λ k v. k < n → ends v.state ≡ true) ws j _ (λ h. ground arith)
      (λ k other h. inv e k h) i lt
scheduler-ends {n} {ws} (take_lock {state} {i = j} below free) waits inv e i lt =
    update-all (λ k v. k < n → ends v.state ≡ true) ws j _ (λ h. inv e j h) (λ k other h. inv e k h)
      i lt
scheduler-ends {n} {ws} (give_lock {state} {i = j}) waits inv e i lt =
    update-all (λ k v. k < n → ends v.state ≡ true) ws j _ (λ h. inv e j h) (λ k other h. inv e k h)
      i lt
scheduler-ends {n} {ws} (notify {state} {i = j}) waits inv e i lt =
    update-all (λ k v. k < n → ends v.state ≡ true) ws j _ (λ h. inv e j h) (λ k other h. inv e k h)
      i lt
scheduler-ends increment waits inv e i lt = inv e i lt
scheduler-ends (delete_one h) waits inv e i lt = inv refl i lt
scheduler-ends (all_deleted h) waits inv e i lt = inv refl i lt
scheduler-ends mv waits inv e i lt = absurd (ground (arith, e))

pub Reach-Ended : {n : ℕ} {s : System} → n < 2 ^ 32 → Reach n s → Ended n s
Reach-Ended few start e i lt = absurd (ground arith)
Reach-Ended {n} few (later {s} r (worker j {g} {w} below mv)) e i lt =
    let before = Reach-Ended few r (sym (resume-ending g s.pc) ∙ e) in
    update-all (λ k v. k < n → ends v.state ≡ true) s.workers j w (λ h. worker-ends mv (before j h))
      (λ k other h. before k h) i lt
Reach-Ended few (later r (scheduler mv)) e i lt =
    scheduler-ends mv (λ at k h. let inv = Reach-Inv few r in (inv.behind k h (ground arith)).1)
      (Reach-Ended few r) e i lt
