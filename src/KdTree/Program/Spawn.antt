-- ===== src/KdTree/Program/Spawn.antt =====
-- `spawn` of a tip: two new nodes for the halves of its samples, and nothing else changes.
use mathlib.Core.List.Perm
use mathlib.Core.List.Permᴰ
use monya.Prelude.{
  ℕ, ◌+◌, ◌*◌, ◌/◌, ◌^◌, ◌≤◌, ◌<◌, ◌≡◌, refl, ap, subst, sym, ◌∙◌, true, false, List, [], ◌∷◌, ◌++◌,
  Perm, arith, ok, Scalar, IsOrdered, Ptr, null, update, ◌==◌, length, take, drop, length-take,
  length-drop, take-append-drop, mem, mem-take, mem-drop, Bool-cases, inl, inr, ◌⊎◌,
}
use monya.IndexVector.{placeholders}
use monya.MemoryIo.{MemoryIo}
use monya.NodeView.{NodeView}
use monya.KdTree.{KdNode, next_split}
use monya.KdTree.Split.{spawned, spawn-spawned}
use monya.KdTree.Program.{KdHeap, is_live, spawn}
use monya.KdTree.Program.Prepare.{indexes, samples_of, IsReadyNode, length-indexes}
use monya.KdTree.Program.Work.{Kept, Kept-refl, IsRun, samples_of-some}
use monya.KdTree.Program.Skeleton.{
  Skeleton, tip, fork, root, has, tips, Distinct, held, Sized, IsPlaced, Grown, Placed-same,
}
use monya.TreeProgram.Children.{children}

module _ {D : Type 0} (s : Scalar D) where
  -- The tips of a tree have been spawned: it goes on below them, and other nodes are as they were.
  pub record Expands (h : KdHeap D) (t : Skeleton) (v : KdHeap D) (t' : Skeleton) : Type 0 where
    pub io : v.io ≡ h.io
    pub later : h.next ≤ v.next
    pub node : (a : Ptr) → a < h.next → v.node a ≡ h.node a
    pub left : (a : Ptr) → a < h.next → mem a (tips t) ≡ false → v.left a ≡ h.left a
    pub right : (a : Ptr) → a < h.next → mem a (tips t) ≡ false → v.right a ≡ h.right a
    pub kids : tips t' ≡ children v.left v.right (tips t)
    pub root_ : root t' ≡ root t
    pub has_ : (a : Ptr) → has a t' ≡ true → (has a t ≡ true) ⊎ (h.next ≤ a)
    pub distinct : Distinct t'
    pub samples : Perm (held v t') (held h t)

  indexes-placeholders : (xs : List ℕ) → indexes (placeholders s xs) ≡ xs
  unfolding placeholders
  indexes-placeholders [] = refl
  indexes-placeholders (x ∷ xs) = ap (◌∷◌ x) (indexes-placeholders xs)

  samples_of-placeholders :
      (io : MemoryIo D) (xs : List ℕ) → 0 < length xs → samples_of io (placeholders s xs) ≡ xs
  samples_of-placeholders io xs h =
      samples_of-some s io (placeholders s xs)
        (omega (arith, length-indexes (placeholders s xs), ap length (indexes-placeholders xs)))
      ∙ indexes-placeholders xs

  -- a child is ready for its work
  spawned-IsReadyNode :
      (io : MemoryIo D) (this : Ptr) (blank : NodeView D) (n : KdNode D) (xs : List ℕ)
      → IsReadyNode io n
      → 0 < length xs
      → ((i : ℕ) → mem i xs ≡ true → i < io.dim.0)
      → IsReadyNode io (spawned s io this blank n xs)
  unfolding next_split
  spawned-IsReadyNode io this blank n xs r h rows = record {
    request = refl;
    dim = ground (arith, r.dim);
    rows = λ i e. rows i (subst (λ z. mem i z ≡ true) (samples_of-placeholders io xs h) e);
  }

  module _ (o : IsOrdered s) (blank : NodeView D) where
    -- the heap after the spawn of a node
    abbrev pub expanded : KdHeap D → Ptr → KdHeap D
    expanded h q =
        let n = h.node q in
        let idxs = indexes n.view.data_index.items in
        let half = length n.view.data_index.items / 2 in
        record h {
          node =
              update (update h.node h.next (spawned s h.io q blank n (take half idxs))) (h.next + 1)
                (spawned s h.io q blank n (drop half idxs));
          left = update (update (update h.left h.next null) (h.next + 1) null) q h.next;
          right = update (update (update h.right h.next null) (h.next + 1) null) q (h.next + 1);
          next = h.next + 2;
        }

    pub spawn-expanded :
        (h : KdHeap D) (par : Ptr) (depth : ℕ) (q : Ptr)
        → IsPlaced h par depth q
        → depth + 1 < 2 ^ 64
        → spawn s blank h q ≡ ok (expanded h q)
    unfolding spawn
    spawn-expanded h par depth q p deep =
        let not_null : (q == null) ≡ false = ground (arith, p.live) in
        rw
          (
            p.live,
            spawn-spawned s o h.io q blank (h.node q) not_null p.ioer (omega (arith, p.depth_)),
          )
          refl

    -- the tree of a node and its children
    abbrev pub pair : KdHeap D → Ptr → Skeleton
    pair h q = fork (tip h.next) q (tip (h.next + 1))

    child-IsPlaced :
        (v : KdHeap D) (q c : Ptr) (n : KdNode D) (xs : List ℕ) (depth : ℕ)
        → v.node c ≡ spawned s v.io q blank n xs
        → is_live v c ≡ true
        → n.view.depth ≡ depth
        → (n.view.ioer == null) ≡ false
        → IsReadyNode v.io n
        → 0 < length xs
        → ((i : ℕ) → mem i xs ≡ true → i < v.io.dim.0)
        → IsPlaced v q (depth + 1) c
    child-IsPlaced v q c n xs depth e live d i r some_one rows = record {
      live = live;
      parent = ap (λ z. z.view.parent) e;
      depth_ = ap (λ z. z.view.depth) e ∙ ap (λ z. z + 1) d;
      ioer = subst (λ z. (z.view.ioer == null) ≡ false) (sym e) i;
      ready =
          subst (IsReadyNode v.io) (sym e) (spawned-IsReadyNode v.io q blank n xs r some_one rows);
    }

    child-samples :
        (v : KdHeap D) (q c : Ptr) (n : KdNode D) (xs : List ℕ)
        → v.node c ≡ spawned s v.io q blank n xs
        → 0 < length xs
        → held v (tip c) ≡ xs
    child-samples v q c n xs e h =
        ap (λ z. samples_of v.io z.view.data_index.items) e ∙ samples_of-placeholders v.io xs h

    -- what the spawn of one tip makes
    pub record Born (h : KdHeap D) (level : ℕ) (par : Ptr) (depth b : ℕ) (q : Ptr) : Type 0 where
      pub expands : Expands h (tip q) (expanded h q) (pair h q)
      pub grown : Grown s (expanded h q) (level + 1) par depth (pair h q)
      pub sized : Sized (expanded h q) b (pair h q)

    pub tip-Born :
        (h : KdHeap D) (level : ℕ) (par : Ptr) (depth b : ℕ) (q : Ptr)
        → Grown s h level par depth (tip q)
        → IsRun s (h.node q)
        → 0 < b
        → Sized h (2 * b) (tip q)
        → Born h level par depth b q
    tip-Born h level par depth b q g run pos size =
        let n = h.node q in
        let v = expanded h q in
        let idxs : List ℕ = indexes n.view.data_index.items in
        let half : ℕ = length n.view.data_index.items / 2 in
        let lower : List ℕ = take half idxs in
        let upper : List ℕ = drop half idxs in
        let all = samples_of-some s h.io n.view.data_index.items run.some_sample in
        let len = length-indexes n.view.data_index.items in
        let big : 2 * b ≤ length idxs = subst (λ z. 2 * b ≤ length z) all size in
        let below : q < h.next = ground (arith, g.0.live) in
        let lower_len : b ≤ length lower = omega (arith, len, big, length-take half idxs) in
        let upper_len : b ≤ length upper = omega (arith, len, big, length-drop half idxs) in
        let rows = λ (i : ℕ) (e : mem i idxs ≡ true).
          g.0.ready.rows i (subst (λ z. mem i z ≡ true) (sym all) e) in
        let at_left : v.node h.next ≡ spawned s h.io q blank n lower = ground arith in
        let at_right : v.node (h.next + 1) ≡ spawned s h.io q blank n upper = ground arith in
        let same : v.node q ≡ n = ground arith in
        let left_q : v.left q ≡ h.next = ground arith in
        let right_q : v.right q ≡ h.next + 1 = ground arith in
        let left_held = child-samples v q h.next n lower at_left (omega (arith, lower_len)) in
        let right_held =
          child-samples v q (h.next + 1) n upper at_right (omega (arith, upper_len)) in
        record {
          expands = record {
            io = refl;
            later = omega arith;
            node = λ a e. ground arith;
            left = λ a e k. ground arith;
            right = λ a e k. ground arith;
            kids = ground (arith, left_q, right_q);
            root_ = refl;
            has_ = λ a e. elim (Bool-cases (a == q)) [
              | inl here ↦ inl here
              | inr other ↦ inr (ground arith)
            ];
            distinct = (ground arith, ground arith, λ a e. ground arith, tt, tt);
            samples =
                subst (λ z. Perm (held v (tip (h.next + 1)) ++ held v (tip h.next)) z) (sym all)
                  (subst (λ z. Perm (z ++ held v (tip h.next)) idxs) (sym right_held)
                    (subst (λ z. Perm (upper ++ z) idxs) (sym left_held)
                      (subst (Perm (upper ++ lower)) (take-append-drop half idxs)
                        ∣ Permᴰ.append_comm upper lower ∣₁)));
          };
          grown = (
            Placed-same s h v refl (omega arith) par depth q
                (subst (Kept h.io n) (sym same) (Kept-refl h.io n)) g.0,
            record {
              left = left_q;
              right = right_q;
              run = subst (IsRun s) (sym same) run;
              on_left =
                  subst
                    (λ m.
                      Perm (held v (tip h.next)) (
                        take (length m.view.data_index.items / 2)
                          (indexes m.view.data_index.items)))
                    (sym same) (subst (Perm (held v (tip h.next))) left_held (Perm.refl _));
              on_right =
                  subst
                    (λ m.
                      Perm (held v (tip (h.next + 1))) (
                        drop (length m.view.data_index.items / 2)
                          (indexes m.view.data_index.items)))
                    (sym same) (subst (Perm (held v (tip (h.next + 1)))) right_held (Perm.refl _));
            },
            (
              child-IsPlaced v q h.next n lower depth at_left (ground arith) g.0.depth_ g.0.ioer
                  g.0.ready (omega (arith, lower_len)) (λ i e. rows i (mem-take i half idxs e)),
              ap (λ z. z + 1) g.1,
              ground arith,
              ground arith,
            ),
            (
              child-IsPlaced v q (h.next + 1) n upper depth at_right (ground arith) g.0.depth_
                  g.0.ioer g.0.ready (omega (arith, upper_len))
                  (λ i e. rows i (mem-drop i half idxs e)),
              ap (λ z. z + 1) g.1,
              ground arith,
              ground arith,
            ),
          );
          sized = (
            subst (λ z. b ≤ length z) (sym left_held) lower_len,
            subst (λ z. b ≤ length z) (sym right_held) upper_len,
          );
        }
