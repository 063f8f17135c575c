-- ===== src/KdTree/Program/Expand.antt =====
-- Spawning the tips of two subtrees, one after the other, is spawning those of the tree.
use mathlib.Core.List.Perm
use monya.Prelude.{
  ℕ, ◌+◌, ◌/◌, ◌≤◌, ◌<◌, ◌≡◌, refl, subst, sym, ◌∙◌, true, false, ◌++◌, Perm, arith, Scalar, Ptr,
  length, take, drop, mem, mem-append, Bool-cases, inl, inr, ◌⊎◌,
}
use monya.KdTree.{KdNode}
use monya.KdTree.Program.{KdHeap}
use monya.KdTree.Program.Prepare.{indexes}
use monya.KdTree.Program.Work.{Kept, Kept-refl, IsRun}
use monya.KdTree.Program.Skeleton.{
  Skeleton, fork, has, tips, tips-has, Distinct, held, IsDivided, Grown, Grown-lt, SameTree,
  Placed-same, live-lt, held-same, Grown-same, Sized-same,
}
use monya.TreeProgram.Children.{children}
use monya.KdTree.Program.Grows.{
  Grows, children-append, children-same, not_tip, has_left, has_right, has_root, SameTree-has,
  below_left, below_right, right_same,
}

module _ {D : Type 0} (s : Scalar D) where
  module _ (h h1 h2 : KdHeap D) (level : ℕ) (par : Ptr) (depth b : ℕ) (l : Skeleton) (q : Ptr)
      (r : Skeleton) (g : Grown s h level par depth (fork l q r)) (u : Distinct (fork l q r))
      (first : Grows s h level q (depth + 1) b l h1)
      (second : Grows s h1 level q (depth + 1) b r h2) where
    not_both : (a : Ptr) → h.next ≤ a → has a r ≡ false
    not_both a new = elim (Bool-cases (has a r)) [
      | inl old ↦ absurd (omega (arith, below_right s h h1 level par depth b l q r g u first a old))
      | inr out ↦ out
    ]

    new_not_right : (a : Ptr) → has a first.next_tree ≡ true → has a r ≡ false
    new_not_right a e = elim (first.expands.has_ a e) [
      | inl old ↦ u.2 a old
      | inr new ↦ not_both a new
    ]

    left_same : SameTree s h1 h2 first.next_tree
    left_same = SameTree-has s h1 h2 first.next_tree λ a e.
        let lt : a < h1.next =
          Grown-lt s h1 (level + 1) q (depth + 1) first.next_tree a first.grown e in
        let out = not_tip r a (new_not_right a e) in
        (second.expands.node a lt, second.expands.left a lt out, second.expands.right a lt out)

    -- the trees below the tips
    left_held : Perm (held h2 first.next_tree) (held h l)
    left_held =
        Perm.trans
          (held-same s h1 h2 second.expands.io second.expands.later first.next_tree left_same)
          first.expands.samples

    right_held : Perm (held h2 second.next_tree) (held h r)
    right_held = Perm.trans second.expands.samples (
        held-same s h h1 first.expands.io first.expands.later r
          (right_same s h h1 level par depth b l q r g u first))

    q_lt : q < h.next
    q_lt = live-lt s h q g.0.live

    node_of : (a : Ptr) → a < h.next → h2.node a ≡ h.node a
    node_of a lt =
        second.expands.node a (omega (arith, lt, first.expands.later)) ∙ first.expands.node a lt

    left_of :
        (a : Ptr)
        → a < h.next
        → mem a (tips l) ≡ false
        → mem a (tips r) ≡ false
        → h2.left a ≡ h.left a
    left_of a lt nl nr =
        second.expands.left a (omega (arith, lt, first.expands.later)) nr
        ∙ first.expands.left a lt nl

    right_of :
        (a : Ptr)
        → a < h.next
        → mem a (tips l) ≡ false
        → mem a (tips r) ≡ false
        → h2.right a ≡ h.right a
    right_of a lt nl nr =
        second.expands.right a (omega (arith, lt, first.expands.later)) nr
        ∙ first.expands.right a lt nl

    kids_of :
        tips first.next_tree ++ tips second.next_tree ≡ children h2.left h2.right (tips l ++ tips r)
    kids_of =
        let moved : children h2.left h2.right (tips l) ≡ children h1.left h1.right (tips l) =
          children-same h1.left h1.right h2.left h2.right (tips l) λ a e.
            let on_left = tips-has l a e in
            let lt : a < h1.next = omega (
              arith,
              below_left s h h1 level par depth b l q r g u first a on_left,
              first.expands.later,
            ) in
            let out = not_tip r a (u.2 a on_left) in
            (second.expands.left a lt out, second.expands.right a lt out) in
        rw
          (
            children-append h2.left h2.right (tips l) (tips r),
            moved,
            first.expands.kids,
            second.expands.kids,
          )
          refl

    has_of :
        (a : Ptr)
        → has a (fork first.next_tree q second.next_tree) ≡ true
        → (has a (fork l q r) ≡ true) ⊎ (h.next ≤ a)
    has_of a e = elim (Bool-cases (has a first.next_tree)) [
      | inl on_left ↦ elim (first.expands.has_ a on_left) [
        | inl old ↦ inl (has_left a l q r old)
        | inr new ↦ inr new
      ]
      | inr not_left ↦ elim (Bool-cases (has a second.next_tree)) [
        | inl on_right ↦ elim (second.expands.has_ a on_right) [
          | inl old ↦ inl (has_right a l q r old)
          | inr new ↦ inr (omega (arith, first.expands.later))
        ]
        | inr not_right ↦
            inl (has_root a l first.next_tree q r second.next_tree e not_left not_right)
      ]
    ]

    -- A new subtree has no node that there was before and that the old one has not.
    fresh_left : has q l ≡ false → has q first.next_tree ≡ false
    fresh_left f = elim (Bool-cases (has q first.next_tree)) [
      | inl new ↦ elim (first.expands.has_ q new) [
        | inl old ↦ cc (old, f)
        | inr later ↦ absurd (omega (arith, q_lt))
      ]
      | inr out ↦ out
    ]

    fresh_right : has q r ≡ false → has q second.next_tree ≡ false
    fresh_right f = elim (Bool-cases (has q second.next_tree)) [
      | inl new ↦ elim (second.expands.has_ q new) [
        | inl old ↦ cc (old, f)
        | inr later ↦ absurd (omega (arith, q_lt, first.expands.later))
      ]
      | inr out ↦ out
    ]

    apart : (a : Ptr) → has a first.next_tree ≡ true → has a second.next_tree ≡ false
    apart a e = elim (Bool-cases (has a second.next_tree)) [
      | inl new ↦ elim (second.expands.has_ a new) [
        | inl old ↦ cc (old, new_not_right a e)
        | inr later ↦
            absurd (
              omega
                (arith, Grown-lt s h1 (level + 1) q (depth + 1) first.next_tree a first.grown e))
      ]
      | inr out ↦ out
    ]

    divided : IsDivided s h2 first.next_tree q second.next_tree
    divided =
        let same = node_of q q_lt in
        let out = not_tip l q u.0 in
        let out' = not_tip r q u.1 in
        let half = λ (n : KdNode D). length n.view.data_index.items / 2 in
        let idxs = λ (n : KdNode D). indexes n.view.data_index.items in
        record {
          left = left_of q q_lt out out' ∙ g.1.left ∙ sym first.expands.root_;
          right = right_of q q_lt out out' ∙ g.1.right ∙ sym second.expands.root_;
          run = subst (IsRun s) (sym same) g.1.run;
          on_left =
              Perm.trans left_held
                (subst (λ n. Perm (held h l) (take (half n) (idxs n))) (sym same) g.1.on_left);
          on_right =
              Perm.trans right_held
                (subst (λ n. Perm (held h r) (drop (half n) (idxs n))) (sym same) g.1.on_right);
        }

    pub Grows-fork : Grows s h level par depth b (fork l q r) h2
    Grows-fork = record {
      next_tree = fork first.next_tree q second.next_tree;
      expands = record {
        io = second.expands.io ∙ first.expands.io;
        later = omega (arith, first.expands.later, second.expands.later);
        node = node_of;
        left = λ a lt out.
            left_of a lt (ground (arith, mem-append a (tips l) (tips r)))
              (ground (arith, mem-append a (tips l) (tips r)));
        right = λ a lt out.
            right_of a lt (ground (arith, mem-append a (tips l) (tips r)))
              (ground (arith, mem-append a (tips l) (tips r)));
        kids = kids_of;
        root_ = refl;
        has_ = has_of;
        distinct = (
          fresh_left u.0,
          fresh_right u.1,
          apart,
          first.expands.distinct,
          second.expands.distinct,
        );
        samples = Perm.append right_held left_held;
      };
      grown = (
        Placed-same s h h2 (second.expands.io ∙ first.expands.io)
            (omega (arith, first.expands.later, second.expands.later)) par depth q
            (subst (Kept h.io (h.node q)) (sym (node_of q q_lt)) (Kept-refl h.io (h.node q))) g.0,
        divided,
        Grown-same s h1 h2 second.expands.io second.expands.later (level + 1) q (depth + 1)
            first.next_tree left_same first.grown,
        second.grown,
      );
      sized = (
        Sized-same s h1 h2 second.expands.io second.expands.later b first.next_tree left_same
            first.sized,
        second.sized,
      );
    }
