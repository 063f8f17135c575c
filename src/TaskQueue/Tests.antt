-- ===== src/TaskQueue/Tests.antt =====
-- A queue of three tasks, whose work logs their addresses.
use monya.Prelude.{◌≡◌, refl, List, [], ◌∷◌, ◌++◌, arith, Run, ok, ◌>>=◌, Ptr}
use monya.TaskQueue.{run_build}
use monya.TaskQueue.Drain.{run_all, unlocked, run_build-run_all}

abbrev log_task : List Ptr → Ptr → Run (List Ptr)
log_task log p = ok (log ++ p ∷ [])

run_build-run_all_example :
    run_build 9 log_task (unlocked (4 ∷ 5 ∷ 6 ∷ [])) []
    ≡ (run_all log_task (4 ∷ 5 ∷ 6 ∷ []) [] >>= λ after. ok (unlocked [], after))
run_build-run_all_example =
    run_build-run_all 9 log_task (4 ∷ 5 ∷ 6 ∷ []) [] (refl, (refl, (refl, tt))) (omega arith)
