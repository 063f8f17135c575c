-- ===== src/KdTree/Program/AtLevel.antt =====
-- What a k-d tree program has built once a level has been run, and how it gets to the next level.
use mathlib.Core.List.Perm
use native.Mathlib.Numerals.{towards_suc}
use monya.Prelude.{
  ℕ, ◌+◌, ◌-◌, ◌*◌, ◌^◌, ◌≤◌, ◌<◌, ◌≡◌, refl, ap, subst, sym, ◌∙◌, Bool, true, false, List, [], ◌∷◌,
  ◌++◌, arith, Perm, Returns, Returns-mono, Scalar, IsOrdered, Ptr, null, ◌==◌, length,
  length-append, mem,
}
use monya.IndexVector.{Algorithms}
use monya.IndexVector.Laws.{IsAlgorithms}
use monya.MemoryIo.{MemoryIo}
use monya.NodeView.{NodeView}
use monya.Scheduler.Levels.{AllFull}
use monya.KdTree.Traversal.Distance.{IsStored}
use monya.KdTree.Program.{KdHeap, is_live, kd_nodes}
use monya.KdTree.Program.Work.{IsRun, Keeps, Keeps-refl, work-IsRun}
use monya.KdTree.Program.Skeleton.{
  Skeleton, tip, fork, root, tips, Distinct, held, Sized, Grown, held-same, Grown-same, Sized-same,
}
use monya.KdTree.Program.Grows.{Grows}
use monya.KdTree.Program.Level.{Keeps-SameTree, tips-ready}
use monya.TreeProgram.{Nodes, Program, schedule_children}
use monya.TreeProgram.Fill.{IsIdle, Runs}
use monya.TreeProgram.Children.{children, schedule_children-Runs}
use monya.TreeProgram.Work.{Steps}

AllFull-last :
    (fanout level : ℕ) (full : List (List Ptr)) (l : List Ptr)
    → AllFull fanout level (full ++ l ∷ [])
    → length l ≡ fanout ^ (level + length full)
AllFull-last fanout level [] l a = a.0 ∙ ap (λ k. fanout ^ k) (omega arith)
AllFull-last fanout level (x ∷ full) l a =
    AllFull-last fanout (level + 1) full l a.1 ∙ ap (λ k. fanout ^ k) (omega arith)

length-children :
    (left right : Ptr → Ptr) (ps : List Ptr) → length (children left right ps) ≡ 2 * length ps
length-children left right [] = refl
length-children left right (p ∷ ps) = omega (arith, length-children left right ps)

tips_pos : (t : Skeleton) → 0 < length (tips t)
tips_pos (tip q) = omega arith
tips_pos (fork l q r) = omega (arith, tips_pos l, length-append (tips l) (tips r))

pub double : (n level k : ℕ) → n ≡ 2 ^ level → k ≡ level + 1 → 2 * n ≡ 2 ^ k
double n level k e f = rw (e, f) (simp towards_suc (omega arith))

pub sub_zero : (n : ℕ) → n ≡ n - 0
sub_zero n = omega arith

pub live-ne : {D : Type 0} (h : KdHeap D) (p : Ptr) → is_live h p ≡ true → (p == null) ≡ false
live-ne h p e = ground arith

module _ {D : Type 0} (s : Scalar D) (io : MemoryIo D) where
  -- what the program has built once a level has been run
  pub record AtLevel (start : Ptr) (max_depth : ℕ) (all : List ℕ) (level : ℕ)
      (p : Program (KdHeap D)) : Type 0 where
    pub full : List (List Ptr)
    pub tree : Skeleton
    pub idle : IsIdle p (full ++ tips tree ∷ []) []
    pub levels : length full ≡ level
    pub parent : Ptr
    pub grown : Grown s p.nodes level parent 0 tree
    pub distinct : Distinct tree
    pub runs : (q : Ptr) → mem q (tips tree) ≡ true → IsRun s (p.nodes.node q)
    pub sized : Sized p.nodes (2 ^ (max_depth - level)) tree
    pub samples : Perm (held p.nodes tree) all
    pub matrix : p.nodes.io ≡ io
    pub root_ : root tree ≡ start
    pub max_depth_ : p.max_depth ≡ max_depth
    pub start_ : p.root ≡ start

module _ {D : Type 0} (s : Scalar D) (o : IsOrdered s) (a : Algorithms D) (laws : IsAlgorithms s a)
    (blank : NodeView D) (io : MemoryIo D) (d : List D) (by_row : Bool) (st : IsStored io d by_row)
    (some_row : 0 < io.dim.0) where
  abbrev ops : Nodes (KdHeap D)
  ops = kd_nodes s a blank

  -- the work on the nodes of a level
  pub level-Steps :
      (h : KdHeap D) (level : ℕ) (par : Ptr) (t : Skeleton)
      → h.io ≡ io
      → Grown s h level par 0 t
      → Steps ops.work (Keeps s (tips t) h) (λ v p. IsRun s (v.node p)) (λ p. mem p (tips t) ≡ true)
  unfolding kd_nodes
  level-Steps h level par t e g u p m k =
      let (live, ready) = tips-ready s h level par 0 t p g m in
      work-IsRun s o a laws d by_row (tips t) h u p (subst (λ z. IsStored z d by_row) (sym e) st)
        (subst (λ z. 0 < z.dim.0) (sym e) some_row) m live ready k

  -- A level that has been run is one of the tree.
  pub Runs-AtLevel :
      (start : Ptr) (max_depth : ℕ) (all : List ℕ) (level : ℕ) (p u : Program (KdHeap D))
      (full : List (List Ptr)) (par : Ptr) (t : Skeleton)
      → length full ≡ level
      → Grown s p.nodes level par 0 t
      → Distinct t
      → Sized p.nodes (2 ^ (max_depth - level)) t
      → Perm (held p.nodes t) all
      → p.nodes.io ≡ io
      → root t ≡ start
      → p.max_depth ≡ max_depth
      → p.root ≡ start
      → Runs ops (Keeps s (tips t) p.nodes) (λ v q. IsRun s (v.node q)) p full (tips t) u
      → AtLevel s io start max_depth all level u
  Runs-AtLevel start max_depth all level p u full par t len g dis size perm e r m root_start ran =
      let k = ran.done.0 in
      let same = Keeps-SameTree s (tips t) p.nodes u.nodes t k dis λ c i n. n in
      let later : p.nodes.next ≤ u.nodes.next = omega (arith, k.next) in
      record {
        full = full;
        tree = t;
        parent = par;
        idle = ran.idle;
        levels = len;
        grown = Grown-same s p.nodes u.nodes k.io later level par 0 t same g;
        distinct = dis;
        runs = ran.done.1;
        sized = Sized-same s p.nodes u.nodes k.io later (2 ^ (max_depth - level)) t same size;
        samples = Perm.trans (held-same s p.nodes u.nodes k.io later t same) perm;
        matrix = k.io ∙ e;
        root_ = r;
        max_depth_ = ran.max_depth ∙ m;
        start_ = ran.root ∙ root_start;
      }

  module _ (start : Ptr) (max_depth : ℕ) (all : List ℕ) (word : max_depth < 2 ^ 32) where
    -- the spawned children of a level are scheduled and run
    pub next_level :
        (level : ℕ) (p : Program (KdHeap D)) (v : KdHeap D)
        → (at : AtLevel s io start max_depth all level p)
        → Grows s p.nodes level at.parent 0 (2 ^ (max_depth - (level + 1))) at.tree v
        → Returns
            (AtLevel s io start max_depth all (level + 1))
            (schedule_children ops (tips at.tree) (record p { nodes = v }))
    unfolding kd_nodes
    next_level level p v at grows =
        let t' = grows.next_tree in
        let q : Program (KdHeap D) = record p { nodes = v } in
        let full' = at.full ++ tips at.tree ∷ [] in
        let len : length full' ≡ level + 1 =
          omega (arith, length-append at.full (tips at.tree ∷ []), at.levels) in
        let e : v.io ≡ io = grows.expands.io ∙ at.matrix in
        let wide : length (tips at.tree) ≡ 2 ^ level =
          AllFull-last 2 0 at.full (tips at.tree)
            (subst (λ n. AllFull n 0 full') at.idle.binary at.idle.levelled.all_full)
          ∙ ap (λ k. 2 ^ k) (omega (arith, at.levels)) in
        let fills : length (tips t') ≡ 2 ^ length full' =
          ap length grows.expands.kids
          ∙ length-children v.left v.right (tips at.tree)
          ∙ double (length (tips at.tree)) level (length full') wide len in
        Returns-mono _ (schedule_children ops (tips at.tree) q)
          (schedule_children-Runs ops (Keeps s (tips t') v) (λ u x. IsRun s (u.node x))
            (tips at.tree) q full' [] (tips t')
            (record {
              ready = at.idle.ready;
              empty = at.idle.empty;
              levelled = at.idle.levelled;
              binary = at.idle.binary;
            })
            (sym grows.expands.kids) (tips_pos at.tree) fills
            (λ x m. live-ne v x (tips-ready s v (level + 1) at.parent 0 t' x grows.grown m).0)
            (level-Steps v (level + 1) at.parent t' e grows.grown) (Keeps-refl s (tips t') v))
          λ u ran.
            Runs-AtLevel start max_depth all (level + 1) q u full' at.parent t' len grows.grown
              grows.expands.distinct grows.sized (Perm.trans grows.expands.samples at.samples) e
              (grows.expands.root_ ∙ at.root_) at.max_depth_ at.start_ ran
