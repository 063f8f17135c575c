-- ===== src/KdTree/Program/Build.antt =====
-- `build` of a k-d tree program, for a tree whose levels are all full.
use mathlib.Core.List.Perm
use mathlib.Core.List.{append-nil}
use native.Mathlib.Nat.{one-le-pow}
use monya.Prelude.{
  ℕ, zero, suc, ◌+◌, ◌-◌, ◌*◌, ◌%◌, ◌^◌, ◌≤◌, ◌<◌, ◌≡◌, refl, ap, subst, sym, ◌∙◌, Bool, true,
  false, List, [], ◌∷◌, ◌++◌, arith, Perm, Returns, bind-Returns, get_elem?, some, leb, Scalar,
  IsOrdered, Ptr, null, ◌==◌, length, length-append, length-perm, mem, Bool-cases, ==_iff, inl, inr,
}
use monya.IndexVector.{Algorithms}
use monya.IndexVector.Laws.{IsAlgorithms}
use monya.MemoryIo.{MemoryIo}
use monya.NodeView.{NodeView, index_range}
use monya.Scheduler.HandOff.{get_nodes-get_elem?}
use monya.Scheduler.Levels.{last_level}
use monya.KdTree.Traversal.Distance.{IsStored}
use monya.KdTree.Program.{KdHeap, kd_nodes}
use monya.KdTree.Program.Prepare.{samples_of}
use monya.KdTree.Program.Work.{IsRun, Keeps, Keeps-refl}
use monya.KdTree.Program.Skeleton.{
  Skeleton, tip, root, tips, Distinct, held, Sized, IsPlaced, Grown,
}
use monya.KdTree.Program.AtLevel.{
  AtLevel, Runs-AtLevel, level-Steps, next_level, live-ne, double, sub_zero,
}
use monya.KdTree.Program.Level.{spawn_all-Grows, spawn_all-last, tips-ready}
use monya.TreeProgram.{Nodes, Program, spawn_all, schedule_children, schedule, build_loop, build}
use monya.TreeProgram.Fill.{IsIdle, schedule-Runs}

length-index_range : (n start : ℕ) → length (index_range n start) ≡ n
unfolding index_range
length-index_range zero start = refl
length-index_range (suc n) start = ap suc (length-index_range n (start + 1))

module _ {D : Type 0} where
  -- a program that has just been set up: a root without samples that asks for its dimension, and a
  -- scheduler with idle threads
  pub record IsFresh (io : MemoryIo D) (p : Program (KdHeap D)) : Type 0 where
    pub idle : IsIdle p [] []
    pub parent : Ptr
    pub placed : IsPlaced p.nodes parent 0 p.root
    pub no_left : p.nodes.left p.root ≡ null
    pub no_right : p.nodes.right p.root ≡ null
    pub matrix : p.nodes.io ≡ io
    pub no_sample : (p.nodes.node p.root).view.data_index.items ≡ []

module _ {D : Type 0} (s : Scalar D) (io : MemoryIo D) where
  -- what `build` leaves
  pub record IsBuilt (start : Ptr) (max_depth : ℕ) (all : List ℕ) (p : Program (KdHeap D))
      : Type 0 where
    pub tree : Skeleton
    pub parent : Ptr
    pub grown : Grown s p.nodes max_depth parent 0 tree
    pub distinct : Distinct tree
    pub runs : (q : Ptr) → mem q (tips tree) ≡ true → IsRun s (p.nodes.node q)
    pub samples : Perm (held p.nodes tree) all
    pub matrix : p.nodes.io ≡ io
    pub root_ : root tree ≡ start
    pub start_ : p.root ≡ start

module _ {D : Type 0} (s : Scalar D) (o : IsOrdered s) (a : Algorithms D) (laws : IsAlgorithms s a)
    (blank : NodeView D) (io : MemoryIo D) (d : List D) (by_row : Bool) (st : IsStored io d by_row)
    (some_row : 0 < io.dim.0) where
  abbrev ops : Nodes (KdHeap D)
  ops = kd_nodes s a blank

  module _ (start : Ptr) (max_depth : ℕ) (all : List ℕ) (word : max_depth < 2 ^ 32) where
    -- The loop ends at the depth that the program allows.
    build_loop-IsBuilt :
        (fuel level : ℕ) (p : Program (KdHeap D))
        → AtLevel s io start max_depth all level p
        → level ≤ max_depth
        → max_depth < fuel + level
        → Returns (IsBuilt s io start max_depth all) (build_loop ops fuel p)
    unfolding build_loop
    build_loop-IsBuilt zero level p at h f = absurd (omega arith)
    build_loop-IsBuilt (suc fuel) level p at h f =
        let full' = at.full ++ tips at.tree ∷ [] in
        let current : p.scheduler.current_level ≡ level + 1 = omega (
          arith,
          sym at.idle.levelled.levels,
          length-append at.full (tips at.tree ∷ []),
          at.levels,
        ) in
        let procd : (p.scheduler.current_level + (2 ^ 64 - 1)) % 2 ^ 64 ≡ level =
          omega (arith, current, word) in
        let narrow : level % 2 ^ 32 ≡ level = omega (arith, word) in
        let allowed : leb level p.max_depth ≡ true = ground (arith, at.max_depth_) in
        let held_here : get_elem? p.scheduler.nodes level ≡ some (tips at.tree) =
          subst (λ ns. get_elem? ns level ≡ some (tips at.tree))
            (sym (append-nil full') ∙ sym at.idle.levelled.nodes)
            (subst (λ k. get_elem? full' k ≡ some (tips at.tree)) at.levels
              (last_level at.full (tips at.tree))) in
        rw (procd, narrow, allowed, get_nodes-get_elem? p.scheduler level (tips at.tree) held_here)
          (elim (Bool-cases (level == p.max_depth)) [
            | inl last ↦
                let end : level ≡ max_depth = (==_iff level p.max_depth).0 last ∙ at.max_depth_ in
                rw
                  (
                    spawn_all-last s o a blank at.tree p.nodes level at.parent 0 p.max_depth false
                        at.grown (omega (arith, at.max_depth_)),
                    last,
                  )
                  (record {
                    tree = at.tree;
                    parent = at.parent;
                    grown = subst (λ k. Grown s p.nodes k at.parent 0 at.tree) end at.grown;
                    distinct = at.distinct;
                    runs = at.runs;
                    samples = at.samples;
                    matrix = at.matrix;
                    root_ = at.root_;
                    start_ = at.start_;
                  })
            | inr more ↦
                let above : level < max_depth = ground (arith, at.max_depth_) in
                let b : ℕ = 2 ^ (max_depth - (level + 1)) in
                let halves : 2 ^ (max_depth - level) ≡ 2 * b =
                  sym (double b (max_depth - (level + 1)) (max_depth - level) refl (omega arith)) in
                bind-Returns (IsBuilt s io start max_depth all)
                  (spawn_all ops p.max_depth (tips at.tree) (p.nodes, false)) _
                  (spawn_all-Grows s o a blank at.tree p.nodes level at.parent 0 b p.max_depth false
                    at.grown at.distinct at.runs
                    (one-le-pow (max_depth - (level + 1)) 2 (omega arith))
                    (subst (λ n. Sized p.nodes n at.tree) halves at.sized)
                    (omega (arith, at.max_depth_)) (omega (arith, word)))
                  λ (v, spawned) (grows, some_spawned).
                    rw (more, some_spawned)
                      (bind-Returns (IsBuilt s io start max_depth all)
                        (schedule_children ops (tips at.tree) (record p { nodes = v })) _
                        (next_level s o a laws blank io d by_row st some_row start max_depth all
                          word level p v at grows)
                        λ u next.
                          build_loop-IsBuilt fuel (level + 1) u next (omega arith) (omega arith))
          ])

    build-root :
        (fuel : ℕ) (par : Ptr) (p : Program (KdHeap D))
        → IsIdle p [] []
        → IsPlaced p.nodes par 0 p.root
        → p.nodes.left p.root ≡ null
        → p.nodes.right p.root ≡ null
        → p.nodes.io ≡ io
        → Perm (held p.nodes (tip p.root)) all
        → p.root ≡ start
        → p.max_depth ≡ max_depth
        → 2 ^ max_depth ≤ length all
        → max_depth < fuel
        → Returns (IsBuilt s io start max_depth all) (build ops fuel p)
    unfolding build
    build-root fuel par p idle placed no_left no_right e perm r m enough f =
        let not_null : (p.root == null) ≡ false = live-ne p.nodes p.root placed.live in
        let g : Grown s p.nodes 0 par 0 (tip p.root) = (placed, refl, no_left, no_right) in
        let size : Sized p.nodes (2 ^ (max_depth - 0)) (tip p.root) =
          subst (λ n. 2 ^ n ≤ length (held p.nodes (tip p.root))) (sub_zero max_depth)
            (omega (arith, length-perm (held p.nodes (tip p.root)) all perm)) in
        rw not_null (
          bind-Returns (IsBuilt s io start max_depth all) (schedule ops p p.root) _
            (schedule-Runs ops (Keeps s (p.root ∷ []) p.nodes) (λ u x. IsRun s (u.node x)) p [] []
              p.root idle refl
              (λ x k. live-ne p.nodes x (tips-ready s p.nodes 0 par 0 (tip p.root) x g k).0)
              (level-Steps s o a laws blank io d by_row st some_row p.nodes 0 par (tip p.root) e g)
              (Keeps-refl s (p.root ∷ []) p.nodes))
            λ u ran.
              build_loop-IsBuilt fuel 0 u
                (Runs-AtLevel s o a laws blank io d by_row st some_row start max_depth all 0 p u []
                  par (tip p.root) refl g tt size perm e r m r ran)
                (omega arith) (omega arith))

  -- `build` of a program that has just been set up, with as many rows as there are nodes on the last
  -- level at least, returns with fuel above the depth. The tree is then full down to that depth; each
  -- inner node has sorted its samples and has a comparator that divides their two halves, which are
  -- those of the tips below its children; each tip has run; and the tips hold each row once.
  pub build-IsBuilt :
      (fuel : ℕ) (p : Program (KdHeap D))
      → IsFresh io p
      → p.max_depth < 2 ^ 32
      → 2 ^ p.max_depth ≤ io.dim.0
      → p.max_depth < fuel
      → Returns (IsBuilt s io p.root p.max_depth (index_range io.dim.0 0)) (build ops fuel p)
  build-IsBuilt fuel p fresh word enough f =
      let all : List ℕ = index_range io.dim.0 0 in
      let here : held p.nodes (tip p.root) ≡ all =
        ap (samples_of p.nodes.io) fresh.no_sample ∙ ap (λ z. index_range z.dim.0 0) fresh.matrix in
      build-root p.root p.max_depth all word fuel fresh.parent p fresh.idle fresh.placed
        fresh.no_left fresh.no_right fresh.matrix
        (subst (λ z. Perm (held p.nodes (tip p.root)) z) here (Perm.refl _)) refl refl
        (subst (λ n. 2 ^ p.max_depth ≤ n) (sym (length-index_range io.dim.0 0)) enough) f
