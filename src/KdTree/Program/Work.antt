-- ===== src/KdTree/Program/Work.antt =====
-- The work of a thread on a node, `prep` and `run`: the node keeps its samples, sorted, and gets the
-- value in the middle as its comparator.
use mathlib.Core.List.Perm
use monya.Prelude.{
  ◌/◌, ◌<◌, ◌≡◌, refl, sym, ap, subst, ◌∙◌, Bool, true, false, List, [], ◌∷◌, Perm, arith, Returns,
  Returns-mono, bind-Returns, Scalar, IsOrdered, Ptr, update, ltb, ◌==◌, ◌&&◌, length, take, drop,
  get_elem?-in_range, mem, mem-perm, mem_ne, Bool-cases, inl, inr, ==_iff, ==_refl,
}
use monya.IndexVector
use monya.IndexVector.{IndexVal, Algorithms}
use monya.IndexVector.Order.{NoneBelow, IsSorted}
use monya.IndexVector.Laws.{IsAlgorithms}
use monya.MemoryIo.{MemoryIo}
use monya.NodeView.{prep}
use monya.KdTree.{KdNode, run}
use monya.KdTree.Divide.{NoneAbove, divided, NoneAbove-val, NoneBelow-val}
use monya.KdTree.Split.{sorted_items, sorted_items_lem, perm-pos, run-ran}
use monya.KdTree.Traversal.Distance.{IsStored}
use monya.KdTree.Program.{KdHeap, is_live, work}
use monya.KdTree.Program.Prepare.{indexes, samples_of, IsReadyNode, IsPrepared, prep-IsPrepared}

module _ {D : Type 0} where
  -- what work on the nodes keeps of each: all but its samples' order and values and its comparator
  pub record Kept (io : MemoryIo D) (n m : KdNode D) : Type 0 where
    pub split_dim : m.split_dim ≡ n.split_dim
    pub request : m.view.req_indxs ≡ n.view.req_indxs
    pub depth : m.view.depth ≡ n.view.depth
    pub ioer : m.view.ioer ≡ n.view.ioer
    pub parent : m.view.parent ≡ n.view.parent
    pub samples :
        Perm (samples_of io m.view.data_index.items) (samples_of io n.view.data_index.items)

  pub Kept-refl : (io : MemoryIo D) (n : KdNode D) → Kept io n n
  Kept-refl io n = record {
    split_dim = refl;
    request = refl;
    depth = refl;
    ioer = refl;
    parent = refl;
    samples = Perm.refl (samples_of io n.view.data_index.items);
  }

  pub Kept-trans : (io : MemoryIo D) (n m k : KdNode D) → Kept io n m → Kept io m k → Kept io n k
  Kept-trans io n m k a b = record {
    split_dim = b.split_dim ∙ a.split_dim;
    request = b.request ∙ a.request;
    depth = b.depth ∙ a.depth;
    ioer = b.ioer ∙ a.ioer;
    parent = b.parent ∙ a.parent;
    samples = Perm.trans b.samples a.samples;
  }

  pub Kept-IsReadyNode :
      (io : MemoryIo D) (n m : KdNode D) → Kept io n m → IsReadyNode io n → IsReadyNode io m
  Kept-IsReadyNode io n m k r = record {
    request = k.request ∙ r.request ∙ ap (λ c. c ∷ []) (sym k.split_dim);
    dim = subst (λ c. c < io.dim.1) (sym k.split_dim) r.dim;
    rows = λ i e. r.rows i (sym (mem-perm i _ _ k.samples) ∙ e);
  }

module _ {D : Type 0} (s : Scalar D) where
  -- a node after its work: its samples are sorted and divided at its comparator
  pub record IsRun (n : KdNode D) : Type 0 where
    pub some_sample : 0 < length n.view.data_index.items
    pub in_order : IsSorted s n.view.data_index.items
    pub at_most :
        NoneAbove s
          (IndexVector.index_val 0 n.view.comparator)
          (take (length n.view.data_index.items / 2) n.view.data_index.items)
    pub at_least :
        NoneBelow s
          (IndexVector.index_val 0 n.view.comparator)
          (drop (length n.view.data_index.items / 2) n.view.data_index.items)

  pub samples_of-some :
      (io : MemoryIo D) (xs : List (IndexVal D)) → 0 < length xs → samples_of io xs ≡ indexes xs
  samples_of-some io xs h =
      let some_held : (length xs == 0) ≡ false = ground arith in rw some_held refl

  run-IsRun :
      (o : IsOrdered s) (a : Algorithms D) (io : MemoryIo D) (n m : KdNode D)
      → IsAlgorithms s a
      → IsPrepared io n.view m.view
      → m.split_dim ≡ n.split_dim
      → Returns (λ k. Kept io n k × IsRun k) (run a m)
  run-IsRun o a io n m laws p dim =
      let (same, sorted) = sorted_items_lem s a m laws in
      let items = sorted_items s a m in
      let pos = perm-pos s items m.view.data_index.items same p.some_sample in
      let half = length items / 2 in
      let (x, e) = get_elem?-in_range items half (omega (arith, pos)) in
      let (above, below) = divided s o items half x sorted e in
      rw (run-ran s a m x e) (
        record {
          split_dim = dim;
          request = ap (λ v. v.req_indxs) p.rest;
          depth = ap (λ v. v.depth) p.rest;
          ioer = ap (λ v. v.ioer) p.rest;
          parent = ap (λ v. v.parent) p.rest;
          samples =
              subst (λ z. Perm z (samples_of io n.view.data_index.items))
                (sym (samples_of-some io items pos))
                (subst (Perm (indexes items)) p.samples (Perm.map _ same));
        },
        record {
          some_sample = pos;
          in_order = sorted;
          at_most = NoneAbove-val s x (IndexVector.index_val 0 x.val) (take half items) refl above;
          at_least = NoneBelow-val s x (IndexVector.index_val 0 x.val) (drop half items) refl below;
        },
      )

  -- the heap after the work of some nodes of a list
  pub record Keeps (among : List Ptr) (h u : KdHeap D) : Type 0 where
    pub io : u.io ≡ h.io
    pub left : u.left ≡ h.left
    pub right : u.right ≡ h.right
    pub next : u.next ≡ h.next
    pub kept : (a : Ptr) → Kept h.io (h.node a) (u.node a)
    pub others : (a : Ptr) → mem a among ≡ false → u.node a ≡ h.node a

  pub Keeps-refl : (among : List Ptr) (h : KdHeap D) → Keeps among h h
  Keeps-refl among h = record {
    io = refl;
    left = refl;
    right = refl;
    next = refl;
    kept = λ a. Kept-refl h.io (h.node a);
    others = λ a e. refl;
  }

  update-kept :
      (io : MemoryIo D) (f : Ptr → KdNode D) (p : Ptr) (n : KdNode D) (a : Ptr)
      → Kept io (f p) n
      → Kept io (f a) (update f p n a)
  update-kept io f p n a k = elim (Bool-cases (a == p)) [
    | inl same ↦ rw same (subst (λ q. Kept io (f q) n) (sym ((==_iff a p).0 same)) k)
    | inr other ↦ rw other (Kept-refl io (f a))
  ]

  update-IsRun :
      (f : Ptr → KdNode D) (p : Ptr) (n : KdNode D) (a : Ptr)
      → IsRun n
      → IsRun (f a)
      → IsRun (update f p n a)
  update-IsRun f p n a new old = elim (Bool-cases (a == p)) [
    | inl same ↦ rw same new
    | inr other ↦ rw other old
  ]

  record Worked (h : KdHeap D) (p : Ptr) (v : KdHeap D) : Type 0 where
    node : KdNode D
    after : v ≡ record h { node = update h.node p node }
    kept : Kept h.io (h.node p) node
    done : IsRun node

  module _ (o : IsOrdered s) (a : Algorithms D) (laws : IsAlgorithms s a) (d : List D)
      (by_row : Bool) where
    work-Worked :
        (h : KdHeap D) (p : Ptr)
        → IsStored h.io d by_row
        → 0 < h.io.dim.0
        → is_live h p ≡ true
        → IsReadyNode h.io (h.node p)
        → Returns (Worked h p) (work a h p)
    unfolding work
    work-Worked h p st some_row live r = rw live (
        bind-Returns (Worked h p) (prep h.io (h.node p).view) _
          (prep-IsPrepared h.io d by_row (h.node p) st some_row r)
          λ w prepared.
            bind-Returns (Worked h p) (run a (record (h.node p) { view = w })) _
              (run-IsRun o a h.io (h.node p) (record (h.node p) { view = w }) laws prepared refl)
              λ n (kept, done). record { node = n; after = refl; kept = kept; done = done })

    -- The work of a live node that is ready returns, does that node, and keeps the others.
    pub work-IsRun :
        (among : List Ptr) (h u : KdHeap D) (p : Ptr)
        → IsStored h.io d by_row
        → 0 < h.io.dim.0
        → mem p among ≡ true
        → is_live h p ≡ true
        → IsReadyNode h.io (h.node p)
        → Keeps among h u
        → Returns
            (λ v.
              Keeps among h v
              × IsRun (v.node p)
              × ((q : Ptr) → IsRun (u.node q) → IsRun (v.node q)))
            (work a u p)
    work-IsRun among h u p st some_row one live r k =
        let ready : IsReadyNode h.io (u.node p) =
          Kept-IsReadyNode h.io (h.node p) (u.node p) (k.kept p) r in
        let live' : is_live u p ≡ true =
          subst (λ n. (ltb 0 p && ltb p n) ≡ true) (sym k.next) live in
        Returns-mono _ (work a u p)
          (work-Worked u p (subst (λ z. IsStored z d by_row) (sym k.io) st)
            (subst (λ z. 0 < z.dim.0) (sym k.io) some_row) live'
            (subst (λ z. IsReadyNode z (u.node p)) (sym k.io) ready))
          λ v w. (
            record {
              io = ap (λ z. z.io) w.after ∙ k.io;
              left = ap (λ z. z.left) w.after ∙ k.left;
              right = ap (λ z. z.right) w.after ∙ k.right;
              next = ap (λ z. z.next) w.after ∙ k.next;
              kept = λ q.
                  subst (λ z. Kept h.io (h.node q) (z.node q)) (sym w.after)
                    (Kept-trans h.io (h.node q) (u.node q) (update u.node p w.node q) (k.kept q) (
                      update-kept h.io u.node p w.node q
                        (subst (λ z. Kept z (u.node p) w.node) k.io w.kept)));
              others = λ q e.
                  let other : (q == p) ≡ false = mem_ne q p among e one in
                  ap (λ z. z.node q) w.after ∙ rw other (k.others q e);
            },
            subst (λ z. IsRun (z.node p)) (sym w.after) (rw (==_refl p) w.done),
            λ q e.
                subst (λ z. IsRun (z.node q)) (sym w.after)
                  (update-IsRun u.node p w.node q w.done e),
          )
