-- ===== src/KdTree/Program/Search.antt =====
-- The tree that `build` leaves, as `find_neighbors` walks it.
use monya.Prelude.{
  ℕ, ◌+◌, ◌-◌, ◌^◌, ◌≤◌, ◌<◌, ◌≡◌, refl, ap, subst, sym, ◌∙◌, true, List, [], ◌∷◌, ◌++◌, arith,
  Scalar, Ptr, mem, mem-append_left, mem-append_right,
}
use monya.IndexVector.{IndexVal}
use monya.BinaryTree.Shape
use monya.BinaryTree.Shape.{Tree, Shape}
use monya.KdTree.Traversal.FullTree
use monya.KdTree.Traversal.FullTree.{FullTree, tree, nodes, samples}
use monya.KdTree.Traversal.Descent.{InDims}
use monya.KdTree.Traversal.Nearest.{InRows, LeavesInRows}
use monya.KdTree.Program.{KdHeap, is_live, kd_mem}
use monya.KdTree.Program.Prepare.{indexes}
use monya.KdTree.Program.Work.{IsRun, samples_of-some}
use monya.KdTree.Program.AtLevel.{double}
use monya.KdTree.Program.Skeleton
use monya.KdTree.Program.Skeleton.{Skeleton, tip, fork, root, tips, Distinct, held, Grown}

module _ {D : Type 0} where
  -- the tree with the comparators of its nodes
  abbrev pub full : KdHeap D → Skeleton → FullTree D
  full h (tip q) = FullTree.tip q (h.node q).view.comparator
  full h (fork l q r) = FullTree.fork (full h l) q (h.node q).view.comparator (full h r)

  pub root-full : (h : KdHeap D) (t : Skeleton) → FullTree.root (full h t) ≡ root t
  root-full h (tip q) = refl
  root-full h (fork l q r) = refl

  has-full :
      (h : KdHeap D) (a : Ptr) (t : Skeleton) → Shape.has a (tree (full h t)) ≡ Skeleton.has a t
  has-full h a (tip q) = ground arith
  has-full h a (fork l q r) = rw (has-full h a l, has-full h a r) refl

  pub Distinct-full : (h : KdHeap D) (t : Skeleton) → Distinct t → Shape.Distinct (tree (full h t))
  Distinct-full h (tip q) u = (refl, refl, λ a e. cc, tt, tt)
  Distinct-full h (fork l q r) u = (
    has-full h q l ∙ u.0,
    has-full h q r ∙ u.1,
    λ a e. has-full h a r ∙ u.2 a (sym (has-full h a l) ∙ e),
    Distinct-full h l u.3,
    Distinct-full h r u.4,
  )

  live-pos : (h : KdHeap D) (q : Ptr) → is_live h q ≡ true → 0 < q
  live-pos h q e = ground arith

  module _ (s : Scalar D) (h : KdHeap D) (level : ℕ) where
    pub Shape-full :
        (p par : Ptr) (depth : ℕ) (t : Skeleton)
        → p ≡ root t
        → Grown s h level par depth t
        → Shape (kd_mem h).links p par (tree (full h t))
    Shape-full p par depth (tip q) e g =
        (e, live-pos h q g.0.live, g.0.live, refl, g.0.parent, g.2, g.3)
    Shape-full p par depth (fork l q r) e g = (
      e,
      live-pos h q g.0.live,
      g.0.live,
      refl,
      g.0.parent,
      Shape-full (h.left q) q (depth + 1) l g.1.left g.2,
      Shape-full (h.right q) q (depth + 1) r g.1.right g.3,
    )

    pub InDims-full :
        (par : Ptr) (depth : ℕ) (t : Skeleton)
        → Grown s h level par depth t
        → InDims s (kd_mem h) h.io.dim.1 (full h t)
    InDims-full par depth (tip q) g = g.0.ready.dim
    InDims-full par depth (fork l q r) g =
        (g.0.ready.dim, InDims-full q (depth + 1) l g.2, InDims-full q (depth + 1) r g.3)

    InRows-mem :
        (n : ℕ) (xs : List (IndexVal D))
        → ((i : ℕ) → mem i (indexes xs) ≡ true → i < n)
        → InRows s n xs
    InRows-mem n [] f = tt
    InRows-mem n (x ∷ xs) f = (f x.index (ground arith), InRows-mem n xs λ i e. f i (ground arith))

    pub LeavesInRows-full :
        (par : Ptr) (depth : ℕ) (t : Skeleton)
        → Grown s h level par depth t
        → ((q : Ptr) → mem q (tips t) ≡ true → IsRun s (h.node q))
        → LeavesInRows s h.io.dim.0 (kd_mem h) (full h t)
    LeavesInRows-full par depth (tip q) g run =
        let items = (h.node q).view.data_index.items in
        let same = samples_of-some s h.io items (run q (ground arith)).some_sample in
        InRows-mem h.io.dim.0 items
          λ i e. g.0.ready.rows i (subst (λ z. mem i z ≡ true) (sym same) e)
    LeavesInRows-full par depth (fork l q r) g run = (
      LeavesInRows-full q (depth + 1) l g.2 λ x e. run x (mem-append_left x (tips l) (tips r) e),
      LeavesInRows-full q (depth + 1) r g.3 λ x e. run x (mem-append_right x (tips l) (tips r) e),
    )

    map-index-append : (xs ys : List (IndexVal D)) → indexes (xs ++ ys) ≡ indexes xs ++ indexes ys
    map-index-append [] ys = refl
    map-index-append (x ∷ xs) ys = ap (◌∷◌ x.index) (map-index-append xs ys)

    pub samples-full :
        (t : Skeleton)
        → ((q : Ptr) → mem q (tips t) ≡ true → IsRun s (h.node q))
        → indexes (samples (kd_mem h) (full h t)) ≡ held h t
    samples-full (tip q) run =
        sym (
          samples_of-some s h.io (h.node q).view.data_index.items
            (run q (ground arith)).some_sample)
    samples-full (fork l q r) run =
        map-index-append (samples (kd_mem h) (full h r)) (samples (kd_mem h) (full h l))
        ∙ ap (λ z. z ++ indexes (samples (kd_mem h) (full h l)))
            (samples-full r λ x e. run x (mem-append_right x (tips l) (tips r) e))
        ∙ ap (λ z. held h r ++ z)
            (samples-full l λ x e. run x (mem-append_left x (tips l) (tips r) e))

    depth-le : (par : Ptr) (depth : ℕ) (t : Skeleton) → Grown s h level par depth t → depth ≤ level
    depth-le par depth (tip q) g = omega (arith, g.1)
    depth-le par depth (fork l q r) g = omega (arith, depth-le q (depth + 1) l g.2)

    pub nodes-full :
        (par : Ptr) (depth : ℕ) (t : Skeleton)
        → Grown s h level par depth t
        → nodes (full h t) + 1 ≡ 2 ^ (level + 1 - depth)
    nodes-full par depth (tip q) g =
        let one : level + 1 - depth ≡ 1 = omega (arith, g.1) in rw one refl
    nodes-full par depth (fork l q r) g =
        let below = depth-le q (depth + 1) l g.2 in
        let twice =
          double (2 ^ (level + 1 - (depth + 1))) (level + 1 - (depth + 1)) (level + 1 - depth) refl
            (omega arith) in
        omega (arith, nodes-full q (depth + 1) l g.2, nodes-full q (depth + 1) r g.3, twice)
