-- ===== src/TaskQueue/Drain.antt =====
-- A worker's build phase empties its queue in the order of the calls of `enqueue`.
use monya.Prelude.{
  ℕ, zero, suc, ◌<◌, ◌≡◌, refl, false, List, [], ◌∷◌, arith, Run, ok, throw, fault, out_of_fuel,
  ◌>>=◌, Ptr, null, ◌==◌, length,
}
use monya.TaskQueue.{TaskQueue, dequeue, run_build}

-- the work on the tasks one after the other
unfoldable pub run_all {ℓ} : {S : Type ℓ} → (S → Ptr → Run S) → List Ptr → S → Run S
run_all work [] st = ok st
run_all work (p ∷ ps) st = do st ← work st p; run_all work ps st

abbrev pub NoneNull : List Ptr → Type 0
NoneNull [] = Unit
NoneNull (p ∷ ps) = ((p == null) ≡ false) × NoneNull ps

abbrev pub unlocked : List Ptr → TaskQueue
unlocked ps = record { tasks = ps; locked = false }

dequeue_front : (p : Ptr) (ps : List Ptr) → dequeue (unlocked (p ∷ ps)) ≡ ok (unlocked ps, p)
unfolding dequeue
dequeue_front p ps = ground arith

-- With fuel above the number of tasks the phase does the work of each task, first in first out, and
-- leaves the queue empty and unlocked; it ends early exactly where the work of a task does.
pub run_build-run_all :
    {S : Type 0} (fuel : ℕ) (work : S → Ptr → Run S) (ps : List Ptr) (st : S)
    → NoneNull ps
    → length ps < fuel
    → run_build fuel work (unlocked ps) st
      ≡ (run_all work ps st >>= λ after. ok (unlocked [], after))
unfolding run_build run_all
run_build-run_all zero work ps st h f = absurd (omega arith)
run_build-run_all (suc fuel) work [] st h f = unfold dequeue in refl
run_build-run_all {S = S} (suc fuel) work (p ∷ ps) st h f =
    rw (dequeue_front p ps, h.0)
      (on (work st p) λ a. run_build-run_all fuel work ps a h.1 (omega arith))
  where
    on :
        (r : Run S)
        → ((a : S)
            → run_build fuel work (unlocked ps) a
              ≡ (run_all work ps a >>= λ after. ok (unlocked [], after)))
        → (r >>= λ st. run_build fuel work (unlocked ps) st)
          ≡ ((r >>= λ st. run_all work ps st) >>= λ after. ok (unlocked [], after))
    on (ok a) next = next a
    on (throw e) next = refl
    on fault next = refl
    on out_of_fuel next = refl
