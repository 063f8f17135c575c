-- ===== src/KdTree/Program/Level.antt =====
-- A level of the tree: its nodes are spawned, and the new ones are run.
use monya.Prelude.{
  ℕ, ◌+◌, ◌*◌, ◌^◌, ◌≤◌, ◌<◌, ◌≡◌, refl, ap, subst, sym, Bool, true, false, List, [], ◌∷◌, ◌++◌,
  arith, Run, ok, throw, fault, out_of_fuel, ◌>>=◌, Returns, Returns-mono, bind-Returns, Scalar,
  IsOrdered, Ptr, ltb, length, mem, mem-append, inl, inr, mem-append_left, mem-append_right,
  mem-append_cases,
}
use monya.IndexVector
use monya.IndexVector.{Algorithms}
use monya.NodeView
use monya.NodeView.{NodeView}
use monya.KdTree.Program.{KdHeap, is_live, kd_nodes}
use monya.KdTree.Program.Prepare.{IsReadyNode, length-indexes}
use monya.KdTree.Program.Work.{IsRun, samples_of-some, Keeps}
use monya.KdTree.Program.Skeleton.{
  Skeleton, tip, fork, has, tips, tips-has, Distinct, Sized, Grown, Grown-lt, SameTree, Grown-same,
  Sized-same,
}
use monya.KdTree.Program.Spawn.{tip-Born, spawn-expanded, pair}
use monya.KdTree.Program.Grows.{Grows, right_same, not_tip, has_left, has_right}
use monya.KdTree.Program.Expand.{Grows-fork}
use monya.TreeProgram.{Nodes, spawn_one, spawn_all}

spawn_all-append :
    {S : Type 0} (ops : Nodes S) (max_depth : ℕ) (xs ys : List Ptr) (st : S × Bool)
    → spawn_all ops max_depth (xs ++ ys) st
      ≡ (spawn_all ops max_depth xs st >>= λ u. spawn_all ops max_depth ys u)
unfolding spawn_all
spawn_all-append ops max_depth [] ys st = refl
spawn_all-append {S = S} ops max_depth (x ∷ xs) ys st =
    on (spawn_one ops max_depth x st) λ u. spawn_all-append ops max_depth xs ys u
  where
    on :
        (r : Run (S × Bool))
        → ((u : S × Bool)
            → spawn_all ops max_depth (xs ++ ys) u
              ≡ (spawn_all ops max_depth xs u >>= λ w. spawn_all ops max_depth ys w))
        → (r >>= λ u. spawn_all ops max_depth (xs ++ ys) u)
          ≡ ((r >>= λ u. spawn_all ops max_depth xs u) >>= λ w. spawn_all ops max_depth ys w)
    on (ok a) next = next a
    on (throw e) next = refl
    on fault next = refl
    on out_of_fuel next = refl

module _ {D : Type 0} (s : Scalar D) (o : IsOrdered s) (a : Algorithms D) (blank : NodeView D) where
  -- The tips of a tree above the last level, with two samples each at least, are all spawned.
  pub spawn_all-Grows :
      (t : Skeleton) (h : KdHeap D) (level : ℕ) (par : Ptr) (depth b max_depth : ℕ) (one : Bool)
      → Grown s h level par depth t
      → Distinct t
      → ((q : Ptr) → mem q (tips t) ≡ true → IsRun s (h.node q))
      → 0 < b
      → Sized h (2 * b) t
      → level < max_depth
      → level + 1 < 2 ^ 64
      → Returns
          (λ (v, spawned). Grows s h level par depth b t v × (spawned ≡ true))
          (spawn_all (kd_nodes s a blank) max_depth (tips t) (h, one))
  unfolding spawn_all spawn_one kd_nodes NodeView.get_depth IndexVector.size
  spawn_all-Grows (tip q) h level par depth b max_depth one g u run pos size more deep =
      let here = run q (ground arith) in
      let above : ltb (h.node q).view.depth max_depth ≡ true = ground (arith, g.0.depth_, g.1) in
      let two : ltb 1 (length (h.node q).view.data_index.items) ≡ true = ground (
        arith,
        pos,
        subst (λ z. 2 * b ≤ length z)
            (samples_of-some s h.io (h.node q).view.data_index.items here.some_sample) size,
        length-indexes (h.node q).view.data_index.items,
      ) in
      let born = tip-Born s o blank h level par depth b q g here pos size in
      rw (above, two, spawn-expanded s o blank h par depth q g.0 (omega (arith, g.1)))
        (
          record {
            next_tree = pair s o blank h q;
            expands = born.expands;
            grown = born.grown;
            sized = born.sized;
          },
          refl,
        )
  spawn_all-Grows (fork l q r) h level par depth b max_depth one g u run pos size more deep =
      rw (spawn_all-append (kd_nodes s a blank) max_depth (tips l) (tips r) (h, one)) (
        bind-Returns _ (spawn_all (kd_nodes s a blank) max_depth (tips l) (h, one)) _
          (spawn_all-Grows l h level q (depth + 1) b max_depth one g.2 u.3
            (λ x e. run x (mem-append_left x (tips l) (tips r) e)) pos size.0 more deep)
          λ (h1, one1) (first, _).
            let same = right_same s h h1 level par depth b l q r g u first in
            let on_right = λ (x : Ptr) (e : mem x (tips r) ≡ true).
              first.expands.node x (Grown-lt s h level q (depth + 1) r x g.3 (tips-has r x e)) in
            Returns-mono _ (spawn_all (kd_nodes s a blank) max_depth (tips r) (h1, one1))
              (spawn_all-Grows r h1 level q (depth + 1) b max_depth one1
                (Grown-same s h h1 first.expands.io first.expands.later level q (depth + 1) r same
                  g.3)
                u.4
                (λ x e.
                  subst (IsRun s) (sym (on_right x e))
                    (run x (mem-append_right x (tips l) (tips r) e)))
                pos (Sized-same s h h1 first.expands.io first.expands.later (2 * b) r same size.1)
                more deep)
              λ (h2, one2) (second, done).
                (Grows-fork s h h1 h2 level par depth b l q r g u first second, done))

  -- At the depth that the program allows, no tip is spawned.
  pub spawn_all-last :
      (t : Skeleton) (h : KdHeap D) (level : ℕ) (par : Ptr) (depth max_depth : ℕ) (one : Bool)
      → Grown s h level par depth t
      → max_depth ≤ level
      → spawn_all (kd_nodes s a blank) max_depth (tips t) (h, one) ≡ ok (h, one)
  unfolding spawn_all spawn_one kd_nodes NodeView.get_depth IndexVector.size
  spawn_all-last (tip q) h level par depth max_depth one g last =
      let deep : ltb (h.node q).view.depth max_depth ≡ false = ground (arith, g.0.depth_, g.1) in
      rw deep refl
  spawn_all-last (fork l q r) h level par depth max_depth one g last =
      rw
        (
          spawn_all-append (kd_nodes s a blank) max_depth (tips l) (tips r) (h, one),
          spawn_all-last l h level q (depth + 1) max_depth one g.2 last,
        )
        (spawn_all-last r h level q (depth + 1) max_depth one g.3 last)

not_both :
    (c : Ptr) (l r : Skeleton)
    → ((x : Ptr) → has x l ≡ true → has x r ≡ false)
    → has c r ≡ true
    → has c l ≡ false
not_both c l r apart e = ground (arith, apart c)

module _ {D : Type 0} (s : Scalar D) where
  -- Work on the tips leaves the tree as it is.
  pub Keeps-SameTree :
      (among : List Ptr) (h v : KdHeap D) (t : Skeleton)
      → Keeps s among h v
      → Distinct t
      → ((c : Ptr) → has c t ≡ true → mem c (tips t) ≡ false → mem c among ≡ false)
      → SameTree s h v t
  Keeps-SameTree among h v (tip q) k u out = (k.kept q, ap (λ f. f q) k.left, ap (λ f. f q) k.right)
  Keeps-SameTree among h v (fork l q r) k u out =
      let not_q : mem q (tips l ++ tips r) ≡ false =
        ground (arith, mem-append q (tips l) (tips r), not_tip l q u.0, not_tip r q u.1) in
      (
        k.others q (out q (ground arith) not_q),
        ap (λ f. f q) k.left,
        ap (λ f. f q) k.right,
        Keeps-SameTree among h v l k u.3 λ c e n.
            out c (has_left c l q r e)
              (ground (arith, mem-append c (tips l) (tips r), not_tip r c (u.2 c e))),
        Keeps-SameTree among h v r k u.4 λ c e n.
            let apart : has c l ≡ false = not_both c l r u.2 e in
            out c (has_right c l q r e)
              (ground (arith, mem-append c (tips l) (tips r), not_tip l c apart)),
      )

  pub tips-ready :
      (h : KdHeap D) (level : ℕ) (par : Ptr) (depth : ℕ) (t : Skeleton) (c : Ptr)
      → Grown s h level par depth t
      → mem c (tips t) ≡ true
      → (is_live h c ≡ true) × IsReadyNode h.io (h.node c)
  tips-ready h level par depth (tip q) c g e =
      let same : q ≡ c = ground arith in
      (
        subst (λ z. is_live h z ≡ true) same g.0.live,
        subst (λ z. IsReadyNode h.io (h.node z)) same g.0.ready,
      )
  tips-ready h level par depth (fork l q r) c g e = elim (mem-append_cases c (tips l) (tips r) e) [
    | inl on_left ↦ tips-ready h level q (depth + 1) l c g.2 on_left
    | inr on_right ↦ tips-ready h level q (depth + 1) r c g.3 on_right
  ]
