-- ===== src/KdTree/Program/Grows.antt =====
-- The tips of a tree have been spawned; those of a left subtree, before those of the right one.
use monya.Prelude.{
  ℕ, ◌+◌, ◌<◌, ◌≡◌, refl, ap, subst, sym, true, false, List, [], ◌∷◌, ◌++◌, arith, Scalar, Ptr, mem,
}
use monya.KdTree.Program.{KdHeap}
use monya.KdTree.Program.Work.{Kept, Kept-refl}
use monya.KdTree.Program.Skeleton.{
  Skeleton, tip, fork, has, tips, tips-has, Distinct, Sized, Grown, Grown-lt, SameTree,
}
use monya.KdTree.Program.Spawn.{Expands}
use monya.TreeProgram.Children.{children}

pub children-append :
    (left right : Ptr → Ptr) (xs ys : List Ptr)
    → children left right (xs ++ ys) ≡ children left right xs ++ children left right ys
children-append left right [] ys = refl
children-append left right (x ∷ xs) ys =
    ap (λ z. left x ∷ right x ∷ z) (children-append left right xs ys)

pub children-same :
    (left right left' right' : Ptr → Ptr) (xs : List Ptr)
    → ((a : Ptr) → mem a xs ≡ true → (left' a ≡ left a) × (right' a ≡ right a))
    → children left' right' xs ≡ children left right xs
children-same left right left' right' [] h = refl
children-same left right left' right' (x ∷ xs) h =
    let (on_left, on_right) = h x (ground arith) in
    rw (on_left, on_right, children-same left right left' right' xs λ a e. h a (ground arith)) refl

pub not_tip : (t : Skeleton) (a : Ptr) → has a t ≡ false → mem a (tips t) ≡ false
not_tip t a n = ground (arith, tips-has t a)

pub has_left :
    (a : Ptr) (l : Skeleton) (q : Ptr) (r : Skeleton) → has a l ≡ true → has a (fork l q r) ≡ true
has_left a l q r e = ground arith

pub has_right :
    (a : Ptr) (l : Skeleton) (q : Ptr) (r : Skeleton) → has a r ≡ true → has a (fork l q r) ≡ true
has_right a l q r e = ground arith

pub has_root :
    (a : Ptr) (l l' : Skeleton) (q : Ptr) (r r' : Skeleton)
    → has a (fork l' q r') ≡ true
    → has a l' ≡ false
    → has a r' ≡ false
    → has a (fork l q r) ≡ true
has_root a l l' q r r' e m n = ground arith

module _ {D : Type 0} (s : Scalar D) where
  -- heaps that agree on the nodes of a tree
  pub SameTree-has :
      (h v : KdHeap D) (t : Skeleton)
      → ((a : Ptr)
          → has a t ≡ true
          → (v.node a ≡ h.node a) × (v.left a ≡ h.left a) × (v.right a ≡ h.right a))
      → SameTree s h v t
  SameTree-has h v (tip q) same =
      let (n, l, r) = same q (ground arith) in
      (subst (Kept h.io (h.node q)) (sym n) (Kept-refl h.io (h.node q)), l, r)
  SameTree-has h v (fork l q r) same =
      let (n, a, b) = same q (ground arith) in
      (
        n,
        a,
        b,
        SameTree-has h v l λ c e. same c (ground arith),
        SameTree-has h v r λ c e. same c (ground arith),
      )

  -- The tips of a tree have been spawned, and each new one has `b` samples at least.
  pub record Grows (h : KdHeap D) (level : ℕ) (par : Ptr) (depth b : ℕ) (t : Skeleton)
      (v : KdHeap D) : Type 0 where
    pub next_tree : Skeleton
    pub expands : Expands s h t v next_tree
    pub grown : Grown s v (level + 1) par depth next_tree
    pub sized : Sized v b next_tree

  module _ (h h1 : KdHeap D) (level : ℕ) (par : Ptr) (depth b : ℕ) (l : Skeleton) (q : Ptr)
      (r : Skeleton) (g : Grown s h level par depth (fork l q r)) (u : Distinct (fork l q r))
      (first : Grows h level q (depth + 1) b l h1) where
    pub below_left : (a : Ptr) → has a l ≡ true → a < h.next
    below_left a e = Grown-lt s h level q (depth + 1) l a g.2 e

    pub below_right : (a : Ptr) → has a r ≡ true → a < h.next
    below_right a e = Grown-lt s h level q (depth + 1) r a g.3 e

    -- the subtrees stay apart
    not_in_left : (a : Ptr) → has a r ≡ true → has a l ≡ false
    not_in_left a e = ground (arith, u.2 a)

    pub right_same : SameTree s h h1 r
    right_same = SameTree-has h h1 r λ a e.
        let lt = below_right a e in
        let out = not_tip l a (not_in_left a e) in
        (first.expands.node a lt, first.expands.left a lt out, first.expands.right a lt out)
