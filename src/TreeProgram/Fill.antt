-- ===== src/TreeProgram/Fill.antt =====
-- A call of `schedule` files a node, or fills a level, which is then run.
use monya.Prelude.{
  ◌+◌, ◌^◌, ◌≡◌, refl, sym, ap, subst, ◌∙◌, Bool, true, false, arith, List, [], ◌∷◌, ◌++◌, Returns,
  Returns-mono, bind-Returns, Ptr, null, ◌==◌, length, length-append, mem, mem-perm, Perm,
  if◌then◌else◌,
}
use monya.Scheduler
use monya.Scheduler.{Scheduler}
use monya.Scheduler.HandOff.{all_tasks, AllUnlocked, IsReady}
use monya.Scheduler.Levels.{IsLevelled, Filled, Filed, schedule-Scheduled}
use monya.TreeProgram.{Nodes, Program, schedule, run_threads, work_all}
use monya.TreeProgram.Work.{Steps, Done, work_all-Emptied}

-- A program between two levels or while one is being filled: its threads have nothing to do.
pub record IsIdle {S : Type 0} (p : Program S) (full : List (List Ptr)) (current : List Ptr)
    : Type 0 where
  pub ready : IsReady p.scheduler
  pub empty : all_tasks p.scheduler.threads ≡ []
  pub levelled : IsLevelled p.scheduler full current
  pub binary : p.scheduler.fanout ≡ 2

module _ {S : Type 0} (ops : Nodes S) where
  -- after a call that does not fill the level
  pub record Waits (p : Program S) (full : List (List Ptr)) (level : List Ptr) (u : Program S)
      : Type 0 where
    pub idle : IsIdle u full level
    pub nodes : u.nodes ≡ p.nodes
    pub root : u.root ≡ p.root
    pub max_depth : u.max_depth ≡ p.max_depth

  scheduled :
      (p : Program S) (full : List (List Ptr)) (current : List Ptr) (node : Ptr) (b : Bool)
      → IsIdle p full current
      → (2 ^ length full == length current + 1) ≡ b
      → Returns
          (λ s.
            if b
            then Filled p.scheduler full (current ++ node ∷ []) s
            else Filed p.scheduler full (current ++ node ∷ []) s)
          (Scheduler.schedule p.scheduler node)
  scheduled p full current node b h e =
      let level = current ++ node ∷ [] in
      let test : (p.scheduler.fanout ^ p.scheduler.current_level == length level) ≡ b =
        rw (h.binary, sym h.levelled.levels, length-append current (node ∷ [])) e in
      Returns-mono _ (Scheduler.schedule p.scheduler node)
        (schedule-Scheduled p.scheduler full current node h.ready h.levelled
          (omega (arith, h.binary)))
        λ s d.
          subst (λ c. if c then Filled p.scheduler full level s else Filed p.scheduler full level s)
            test d

  pub schedule-Waits :
      (p : Program S) (full : List (List Ptr)) (current : List Ptr) (node : Ptr)
      → IsIdle p full current
      → (2 ^ length full == length current + 1) ≡ false
      → Returns (Waits p full (current ++ node ∷ [])) (schedule ops p node)
  unfolding schedule
  schedule-Waits p full current node h more =
      bind-Returns (Waits p full (current ++ node ∷ [])) (Scheduler.schedule p.scheduler node) _
        (scheduled p full current node false h more)
        λ s (lv, threads, fan).
          let same : (s.current_level == p.scheduler.current_level) ≡ true =
            ground (arith, lv.levels, h.levelled.levels) in
          rw same (record {
            idle = record {
              ready = record {
                some_thread = omega (arith, h.ready.some_thread, ap length threads);
                word = omega (arith, h.ready.word, ap length threads);
                free = subst AllUnlocked (sym threads) h.ready.free;
              };
              empty = ap all_tasks threads ∙ h.empty;
              levelled = lv;
              binary = fan ∙ h.binary;
            };
            nodes = refl;
            root = refl;
            max_depth = refl;
          })

module _ {S : Type 0} (ops : Nodes S) (P : S → Type 0) (D : S → Ptr → Type 0) where
  -- after a call that fills the level: it has been run
  pub record Runs (p : Program S) (full : List (List Ptr)) (level : List Ptr) (u : Program S)
      : Type 0 where
    pub idle : IsIdle u (full ++ level ∷ []) []
    pub done : Done ops.work P D level p.nodes u.nodes
    pub root : u.root ≡ p.root
    pub max_depth : u.max_depth ≡ p.max_depth

  run_threads-Runs :
      (p : Program S) (full : List (List Ptr)) (current level : List Ptr) (s : Scheduler)
      → IsIdle p full current
      → Filled p.scheduler full level s
      → ((a : Ptr) → mem a level ≡ true → (a == null) ≡ false)
      → Steps ops.work P D (λ a. mem a level ≡ true)
      → P p.nodes
      → Returns (Runs p full level) (run_threads ops (record p { scheduler = s }))
  unfolding run_threads
  run_threads-Runs p full current level s h (lv, handed, fan) live step start =
      let perm : Perm (all_tasks s.threads) level =
        subst (λ ts. Perm (all_tasks s.threads) (ts ++ level)) h.empty handed.tasks in
      let same = λ (a : Ptr). mem-perm a (all_tasks s.threads) level perm in
      bind-Returns (Runs p full level) (work_all ops s.threads p.nodes) _
        (work_all-Emptied ops P D s.threads p.nodes handed.free (λ a e. live a (sym (same a) ∙ e))
          (λ st a e. step st a (sym (same a) ∙ e)) start)
        λ (threads, st) em. record {
          idle = record {
            ready = record {
              some_thread = omega (arith, h.ready.some_thread, handed.threads, em.threads);
              word = omega (arith, h.ready.word, handed.threads, em.threads);
              free = em.free;
            };
            empty = em.tasks;
            levelled = record {
              nodes = lv.nodes;
              levels = lv.levels;
              all_full = lv.all_full;
              room = lv.room;
            };
            binary = fan ∙ h.binary;
          };
          done = (em.done.0, λ a e. em.done.1 a (same a ∙ e), em.done.2);
          root = refl;
          max_depth = refl;
        }

  -- The call that fills a level runs it.
  pub schedule-Runs :
      (p : Program S) (full : List (List Ptr)) (current : List Ptr) (node : Ptr)
      → IsIdle p full current
      → (2 ^ length full == length current + 1) ≡ true
      → ((a : Ptr) → mem a (current ++ node ∷ []) ≡ true → (a == null) ≡ false)
      → Steps ops.work P D (λ a. mem a (current ++ node ∷ []) ≡ true)
      → P p.nodes
      → Returns (Runs p full (current ++ node ∷ [])) (schedule ops p node)
  unfolding schedule
  schedule-Runs p full current node h filled live step start =
      let level = current ++ node ∷ [] in
      bind-Returns (Runs p full level) (Scheduler.schedule p.scheduler node) _
        (scheduled ops p full current node true h filled)
        λ s f.
          let next : (s.current_level == p.scheduler.current_level) ≡ false =
            ground (arith, f.0.levels, h.levelled.levels, length-append full (level ∷ [])) in
          rw next (run_threads-Runs p full current level s h f live step start)
