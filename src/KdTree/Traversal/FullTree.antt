-- ===== src/KdTree/Traversal/FullTree.antt =====
-- Trees in which a node has both children or none, as `spawn` makes them, and what marking the nodes
-- of one does to a set.
use monya.Prelude.{
  ℕ, suc, ◌+◌, ◌≡◌, subst, Bool, true, false, ◌||◌, arith, List, ◌++◌, Ptr, null, update, ◌==◌,
}
use monya.IndexVector.{IndexVal}
use monya.KdTree.Traversal.{KdMem}
use monya.BinaryTree.Shape.{Tree, leaf, node, has, Shape, has_ne}
use monya.TreeMemory.{Mem}

pub data FullTree (D : Type 0) : Type 0 where
  tip : Ptr → D → FullTree D
  fork : FullTree D → Ptr → D → FullTree D → FullTree D

module _ {D : Type 0} where
  -- as a tree of nodes
  abbrev pub tree : FullTree D → Tree D
  tree (tip q k) = node leaf q k leaf
  tree (fork l q k r) = node (tree l) q k (tree r)

  abbrev pub nodes : FullTree D → ℕ
  nodes (tip q k) = 1
  nodes (fork l q k r) = suc (nodes l + nodes r)

  abbrev pub root : FullTree D → Ptr
  root (tip q k) = q
  root (fork l q k r) = q

  -- the samples of the leaves, those on the right first
  abbrev pub samples : KdMem D → FullTree D → List (IndexVal D)
  samples m (tip q k) = (m.data_index q).items
  samples m (fork l q k r) = samples m r ++ samples m l

  -- the set with the nodes of a tree added
  abbrev pub mark : FullTree D → (Ptr → Bool) → Ptr → Bool
  mark (tip q k) c = update c q true
  mark (fork l q k r) c = mark l (mark r (update c q true))

  pub mark_lem : (t : FullTree D) (c : Ptr → Bool) (a : Ptr) → mark t c a ≡ (has a (tree t) || c a)
  mark_lem (tip q k) c a = ground arith
  mark_lem (fork l q k r) c a =
      ground (arith, mark_lem l (mark r (update c q true)) a, mark_lem r (update c q true) a)

  pub root-has : (t : FullTree D) → has (root t) (tree t) ≡ true
  root-has (tip q k) = ground arith
  root-has (fork l q k r) = ground arith

  -- the address of a tree in memory is its root, which is not NULL
  pub Shape-root :
      (m : Mem D) (p par : Ptr) (t : FullTree D)
      → Shape m p par (tree t)
      → (p ≡ root t) × ((p == null) ≡ false) × (m.live p ≡ true)
  Shape-root m p par (tip q k) sh = (sh.0, ground (arith, sh.0, sh.1), ground (arith, sh.0, sh.2))
  Shape-root m p par (fork l q k r) sh =
      (sh.0, ground (arith, sh.0, sh.1), ground (arith, sh.0, sh.2))

  -- none of the nodes of a tree is in the set
  abbrev pub Unmarked : FullTree D → (Ptr → Bool) → Type 0
  Unmarked t c = (a : Ptr) → has a (tree t) ≡ true → c a ≡ false

  pub Shape-at_root :
      (m : Mem D) (p par : Ptr) (t : FullTree D)
      → Shape m p par (tree t)
      → Shape m (root t) par (tree t) × (m.live (root t) ≡ true)
  Shape-at_root m p par t sh =
      let at_root = Shape-root m p par t sh in
      (
        subst (λ x. Shape m x par (tree t)) at_root.0 sh,
        subst (λ x. m.live x ≡ true) at_root.0 at_root.2,
      )

  module _ (l : FullTree D) (q : Ptr) (k : D) (r : FullTree D) (c : Ptr → Bool) where
    pub Unmarked-left : Unmarked (fork l q k r) c → Unmarked l c
    Unmarked-left u a h = u a (ground arith)

    pub Unmarked-right : Unmarked (fork l q k r) c → Unmarked r c
    Unmarked-right u a h = u a (ground arith)

  pub Unmarked-update :
      (t : FullTree D) (q : Ptr) (c : Ptr → Bool)
      → has q (tree t) ≡ false
      → Unmarked t c
      → Unmarked t (update c q true)
  Unmarked-update t q c other u a h = rw (has_ne a q (tree t) h other) (u a h)

  -- Marking another tree leaves this one unmarked.
  pub Unmarked-mark :
      (t r : FullTree D) (c : Ptr → Bool)
      → ((a : Ptr) → has a (tree t) ≡ true → has a (tree r) ≡ false)
      → Unmarked t c
      → Unmarked t (mark r c)
  Unmarked-mark t r c apart u a h = rw (mark_lem r c a, apart a h) (u a h)
