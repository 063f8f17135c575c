-- ===== src/Scheduler/Tests.antt =====
-- A binary tree's scheduler with two threads, whose second level has one of its two nodes.
use monya.Prelude.{refl, [], ◌∷◌, ◌++◌, arith, Returns}
use monya.TaskQueue.Drain.{unlocked}
use monya.Scheduler.{Scheduler, schedule}
use monya.Scheduler.HandOff.{IsReady}
use monya.Scheduler.Levels.{IsLevelled, Scheduled, schedule-Scheduled}

abbrev binary : Scheduler
binary = record {
  fanout = 2;
  max_levels = 4;
  current_level = 1;
  nodes = (7 ∷ []) ∷ (8 ∷ []) ∷ [];
  threads = unlocked [] ∷ unlocked [] ∷ [];
}

binary-IsReady : IsReady binary
binary-IsReady = record { some_thread = omega arith; word = omega arith; free = (refl, (refl, tt)) }

binary-IsLevelled : IsLevelled binary ((7 ∷ []) ∷ []) (8 ∷ [])
binary-IsLevelled = record {
  nodes = refl;
  levels = refl;
  all_full = (refl, tt);
  room = omega arith;
}

schedule-Scheduled_example :
    Returns (Scheduled binary ((7 ∷ []) ∷ []) ((8 ∷ []) ++ 9 ∷ [])) (schedule binary 9)
schedule-Scheduled_example =
    schedule-Scheduled binary ((7 ∷ []) ∷ []) (8 ∷ []) 9 binary-IsReady binary-IsLevelled
      (omega arith)
