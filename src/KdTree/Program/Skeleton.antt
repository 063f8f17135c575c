-- ===== src/KdTree/Program/Skeleton.antt =====
-- The tree that a program's nodes form in memory while it grows: its tips are the nodes of the last
-- level.
use monya.Prelude.{
  ℕ, ◌+◌, ◌/◌, ◌≤◌, ◌<◌, ◌≡◌, subst, sym, ◌∙◌, Bool, true, false, ◌||◌, List, [], ◌∷◌, ◌++◌, Perm,
  arith, Scalar, Ptr, null, ◌==◌, length, take, drop, length-perm, mem, mem-append, Bool-cases,
  ==_iff, inl, inr,
}
use mathlib.Core.List.Perm
use monya.KdTree.{KdNode}
use monya.KdTree.Program.{KdHeap, is_live}
use monya.KdTree.Program.Prepare.{indexes, samples_of, IsReadyNode}
use monya.KdTree.Program.Work.{Kept, Kept-refl, IsRun, Kept-IsReadyNode}

pub data Skeleton : Type 0 where
  tip : Ptr → Skeleton
  fork : Skeleton → Ptr → Skeleton → Skeleton

abbrev pub root : Skeleton → Ptr
root (tip q) = q
root (fork l q r) = q

abbrev pub has : Ptr → Skeleton → Bool
has a (tip q) = a == q
has a (fork l q r) = (a == q) || (has a l || has a r)

-- the nodes of the last level, from left to right
abbrev pub tips : Skeleton → List Ptr
tips (tip q) = q ∷ []
tips (fork l q r) = tips l ++ tips r

abbrev pub Distinct : Skeleton → Type 0
Distinct (tip q) = Unit
Distinct (fork l q r) =
    (has q l ≡ false)
    × (has q r ≡ false)
    × ((a : Ptr) → has a l ≡ true → has a r ≡ false)
    × Distinct l
    × Distinct r

pub tips-has : (t : Skeleton) (a : Ptr) → mem a (tips t) ≡ true → has a t ≡ true
tips-has (tip q) a e = ground arith
tips-has (fork l q r) a e =
    ground (arith, mem-append a (tips l) (tips r), tips-has l a, tips-has r a)

module _ {D : Type 0} where
  -- the samples of the tips, those on the right first
  abbrev pub held : KdHeap D → Skeleton → List ℕ
  held h (tip q) = samples_of h.io (h.node q).view.data_index.items
  held h (fork l q r) = held h r ++ held h l

  -- each tip has at least `b` samples
  abbrev pub Sized : KdHeap D → ℕ → Skeleton → Type 0
  Sized h b (tip q) = b ≤ length (samples_of h.io (h.node q).view.data_index.items)
  Sized h b (fork l q r) = Sized h b l × Sized h b r

  -- a node of the tree, whatever its children
  pub record IsPlaced (h : KdHeap D) (par : Ptr) (depth : ℕ) (q : Ptr) : Type 0 where
    pub live : is_live h q ≡ true
    pub parent : (h.node q).view.parent ≡ par
    pub depth_ : (h.node q).view.depth ≡ depth
    pub ioer : ((h.node q).view.ioer == null) ≡ false
    pub ready : IsReadyNode h.io (h.node q)

  module _ (s : Scalar D) where
    -- a node that has run and whose children have the two halves of its samples
    pub record IsDivided (h : KdHeap D) (l : Skeleton) (q : Ptr) (r : Skeleton) : Type 0 where
      pub left : h.left q ≡ root l
      pub right : h.right q ≡ root r
      pub run : IsRun s (h.node q)
      pub on_left : Perm (held h l) (
          take
            (length (h.node q).view.data_index.items / 2)
            (indexes (h.node q).view.data_index.items))
      pub on_right : Perm (held h r) (
          drop
            (length (h.node q).view.data_index.items / 2)
            (indexes (h.node q).view.data_index.items))

    -- The tree is in the heap, from a node at `depth` down to tips at `level`.
    abbrev pub Grown : KdHeap D → ℕ → Ptr → ℕ → Skeleton → Type 0
    Grown h level par depth (tip q) =
        IsPlaced h par depth q × (depth ≡ level) × (h.left q ≡ null) × (h.right q ≡ null)
    Grown h level par depth (fork l q r) =
        IsPlaced h par depth q
        × IsDivided h l q r
        × Grown h level q (depth + 1) l
        × Grown h level q (depth + 1) r

    pub Grown-live :
        (h : KdHeap D) (level : ℕ) (par : Ptr) (depth : ℕ) (t : Skeleton) (a : Ptr)
        → Grown h level par depth t
        → has a t ≡ true
        → is_live h a ≡ true
    Grown-live h level par depth (tip q) a g e =
        subst (λ z. is_live h z ≡ true) (sym ((==_iff a q).0 e)) g.0.live
    Grown-live h level par depth (fork l q r) a g e = elim (Bool-cases (a == q)) [
      | inl same ↦ subst (λ z. is_live h z ≡ true) (sym ((==_iff a q).0 same)) g.0.live
      | inr other ↦ elim (Bool-cases (has a l)) [
        | inl on_left ↦ Grown-live h level q (depth + 1) l a g.2 on_left
        | inr not_left ↦ Grown-live h level q (depth + 1) r a g.3 (ground arith)
      ]
    ]

    pub live-lt : (h : KdHeap D) (a : Ptr) → is_live h a ≡ true → a < h.next
    live-lt h a e = ground arith

    pub Grown-lt :
        (h : KdHeap D) (level : ℕ) (par : Ptr) (depth : ℕ) (t : Skeleton) (a : Ptr)
        → Grown h level par depth t
        → has a t ≡ true
        → a < h.next
    Grown-lt h level par depth t a g e = live-lt h a (Grown-live h level par depth t a g e)

    -- what another heap has to share for the tree to be in it too
    abbrev pub SameTree : KdHeap D → KdHeap D → Skeleton → Type 0
    SameTree h v (tip q) =
        Kept h.io (h.node q) (v.node q) × (v.left q ≡ h.left q) × (v.right q ≡ h.right q)
    SameTree h v (fork l q r) =
        (v.node q ≡ h.node q)
        × (v.left q ≡ h.left q)
        × (v.right q ≡ h.right q)
        × SameTree h v l
        × SameTree h v r

    module _ (h v : KdHeap D) (io : v.io ≡ h.io) (later : h.next ≤ v.next) where
      pub held-same : (t : Skeleton) → SameTree h v t → Perm (held v t) (held h t)
      held-same (tip q) e =
          subst
            (λ z.
              Perm (samples_of z (v.node q).view.data_index.items)
                (samples_of h.io (h.node q).view.data_index.items))
            (sym io) e.0.samples
      held-same (fork l q r) e = Perm.append (held-same r e.4) (held-same l e.3)

      pub Placed-same :
          (par : Ptr) (depth : ℕ) (q : Ptr)
          → Kept h.io (h.node q) (v.node q)
          → IsPlaced h par depth q
          → IsPlaced v par depth q
      Placed-same par depth q k p = record {
        live = ground (arith, p.live, later);
        parent = k.parent ∙ p.parent;
        depth_ = k.depth ∙ p.depth_;
        ioer = subst (λ z. (z == null) ≡ false) (sym k.ioer) p.ioer;
        ready =
            subst (λ z. IsReadyNode z (v.node q)) (sym io)
              (Kept-IsReadyNode h.io (h.node q) (v.node q) k p.ready);
      }

      pub Grown-same :
          (level : ℕ) (par : Ptr) (depth : ℕ) (t : Skeleton)
          → SameTree h v t
          → Grown h level par depth t
          → Grown v level par depth t
      Grown-same level par depth (tip q) e g =
          (Placed-same par depth q e.0 g.0, g.1, e.1 ∙ g.2, e.2 ∙ g.3)
      Grown-same level par depth (fork l q r) e g =
          let items = λ (n : KdNode D). n.view.data_index.items in
          let half = λ (n : KdNode D). length n.view.data_index.items / 2 in
          (
            Placed-same par depth q
                (subst (Kept h.io (h.node q)) (sym e.0) (Kept-refl h.io (h.node q))) g.0,
            record {
              left = e.1 ∙ g.1.left;
              right = e.2 ∙ g.1.right;
              run = subst (IsRun s) (sym e.0) g.1.run;
              on_left = Perm.trans (held-same l e.3) (
                  subst (λ n. Perm (held h l) (take (half n) (indexes (items n)))) (sym e.0)
                    g.1.on_left);
              on_right = Perm.trans (held-same r e.4) (
                  subst (λ n. Perm (held h r) (drop (half n) (indexes (items n)))) (sym e.0)
                    g.1.on_right);
            },
            Grown-same level q (depth + 1) l e.3 g.2,
            Grown-same level q (depth + 1) r e.4 g.3,
          )

      pub Sized-same : (b : ℕ) (t : Skeleton) → SameTree h v t → Sized h b t → Sized v b t
      Sized-same b (tip q) e g =
          subst (λ n. b ≤ n)
            (sym (length-perm (held v (tip q)) (held h (tip q)) (held-same (tip q) e))) g
      Sized-same b (fork l q r) e g = (Sized-same b l e.3 g.0, Sized-same b r e.4 g.1)
