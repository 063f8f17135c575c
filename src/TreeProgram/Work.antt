-- ===== src/TreeProgram/Work.antt =====
-- The build phase of the threads of a level, each node's work one after the other.
use monya.Prelude.{
  ◌+◌, ◌≡◌, refl, ap, subst, sym, true, false, arith, List, [], ◌∷◌, Run, Returns, Returns-mono,
  bind-Returns, Ptr, null, ◌==◌, length, mem, mem-append_left, mem-append_right, mem-append_cases,
  suc, Bool-cases, inl, inr, ==_iff,
}
use monya.TaskQueue.{TaskQueue, run_build}
use monya.TaskQueue.Drain.{run_all, NoneNull, unlocked, run_build-run_all}
use monya.Scheduler.HandOff.{all_tasks, AllUnlocked}
use monya.TreeProgram.{Nodes, work_all}

module _ {S : Type 0} (work : S → Ptr → Run S) (P : S → Type 0) (D : S → Ptr → Type 0) where
  -- the work of one node keeps `P` and what has been done, and does its own node
  abbrev pub Steps : (Ptr → Type 0) → Type 0
  Steps among =
      (st : S) (p : Ptr)
      → among p
      → P st
      → Returns (λ u. P u × D u p × ((a : Ptr) → D st a → D u a)) (work st p)

  abbrev pub Done : List Ptr → S → S → Type 0
  Done ps st u = P u × ((a : Ptr) → mem a ps ≡ true → D u a) × ((a : Ptr) → D st a → D u a)

  run_all-Done :
      (ps : List Ptr) (st : S)
      → Steps (λ p. mem p ps ≡ true)
      → P st
      → Returns (Done ps st) (run_all work ps st)
  unfolding run_all
  run_all-Done [] st step h = (h, λ a e. cc, λ a d. d)
  run_all-Done (p ∷ ps) st step h =
      bind-Returns (Done (p ∷ ps) st) (work st p) _ (step st p (ground arith) h)
        λ u (hu, here, kept).
          Returns-mono (Done (p ∷ ps) st) (run_all work ps u)
            (run_all-Done ps u (λ st q e. step st q (ground arith)) hu)
            λ v (hv, done, later). (
              hv,
              λ a e. elim (Bool-cases (a == p)) [
                | inl same ↦ subst (D v) (sym ((==_iff a p).0 same)) (later p here)
                | inr other ↦ done a (ground arith)
              ],
              λ a d. later a (kept a d),
            )

  -- All queues are emptied, and the work of each of their nodes is done.
  pub record Emptied (qs : List TaskQueue) (st : S) (r : List TaskQueue × S) : Type 0 where
    pub done : Done (all_tasks qs) st r.1
    pub tasks : all_tasks r.0 ≡ []
    pub free : AllUnlocked r.0
    pub threads : length r.0 ≡ length qs

  NoneNull-mem : (ps : List Ptr) → ((p : Ptr) → mem p ps ≡ true → (p == null) ≡ false) → NoneNull ps
  NoneNull-mem [] h = tt
  NoneNull-mem (p ∷ ps) h = (h p (ground arith), NoneNull-mem ps λ q e. h q (ground arith))

  run_build-Done :
      (q : TaskQueue) (st : S)
      → q.locked ≡ false
      → ((p : Ptr) → mem p q.tasks ≡ true → (p == null) ≡ false)
      → Steps (λ p. mem p q.tasks ≡ true)
      → P st
      → Returns
          (λ (r, u). Done q.tasks st u × (r ≡ unlocked []))
          (run_build (length q.tasks + 1) work q st)
  run_build-Done q st free live step h =
      subst
        (λ z.
          Returns (λ (r, u). Done q.tasks st u × (r ≡ unlocked []))
            (run_build (length q.tasks + 1) work z st))
        (sym (ap (λ b. record q { locked = b }) free))
        (rw
          (run_build-run_all (length q.tasks + 1) work q.tasks st (NoneNull-mem q.tasks live)
            (omega arith))
          (bind-Returns (λ (r, u). Done q.tasks st u × (r ≡ unlocked [])) (run_all work q.tasks st)
            _ (run_all-Done q.tasks st step h) λ u d. (d, refl)))

module _ {S : Type 0} (ops : Nodes S) (P : S → Type 0) (D : S → Ptr → Type 0) where
  pub work_all-Emptied :
      (qs : List TaskQueue) (st : S)
      → AllUnlocked qs
      → ((p : Ptr) → mem p (all_tasks qs) ≡ true → (p == null) ≡ false)
      → Steps ops.work P D (λ p. mem p (all_tasks qs) ≡ true)
      → P st
      → Returns (Emptied ops.work P D qs st) (work_all ops qs st)
  unfolding work_all
  work_all-Emptied [] st free live step h = record {
    done = (h, λ a e. cc, λ a d. d);
    tasks = refl;
    free = tt;
    threads = refl;
  }
  work_all-Emptied (q ∷ qs) st free live step h =
      let now : Steps ops.work P D (λ p. mem p q.tasks ≡ true) =
        λ u p e. step u p (mem-append_left p q.tasks (all_tasks qs) e) in
      let later : Steps ops.work P D (λ p. mem p (all_tasks qs) ≡ true) =
        λ u p e. step u p (mem-append_right p q.tasks (all_tasks qs) e) in
      bind-Returns (Emptied ops.work P D (q ∷ qs) st) (run_build (length q.tasks + 1) ops.work q st)
        _
        (run_build-Done ops.work P D q st free.0
          (λ p e. live p (mem-append_left p q.tasks (all_tasks qs) e)) now h)
        λ (r, u) (d, emptied).
          bind-Returns (Emptied ops.work P D (q ∷ qs) st) (work_all ops qs u) _
            (work_all-Emptied qs u free.1
              (λ p e. live p (mem-append_right p q.tasks (all_tasks qs) e)) later d.0)
            λ (rs, v) em. record {
              done = (
                em.done.0,
                λ a e. elim (mem-append_cases a q.tasks (all_tasks qs) e) [
                  | inl l ↦ em.done.2 a (d.1 a l)
                  | inr k ↦ em.done.1 a k
                ],
                λ a x. em.done.2 a (d.2 a x),
              );
              tasks = rw emptied em.tasks;
              free = rw emptied (refl, em.free);
              threads = ap suc em.threads;
            }
