-- ===== src/KdTree/Split.antt =====
-- A node that has run splits its samples at its comparator.
use mathlib.Core.List.Perm
use monya.Prelude.{
  ℕ, suc, ◌+◌, ◌/◌, ◌%◌, ◌^◌, ◌<◌, ◌≡◌, refl, sym, ap, true, false, some, none, List, [], ◌∷◌, map,
  Perm, arith, ok, fault, ◌>>=◌, Returns, Scalar, IsOrdered, Ptr, null, ltb, ◌==◌, if◌then◌else◌,
  ◌∙◌, length, length-perm, get_elem?, take, drop, get_elem?-in_range, Bool-cases, inl, inr,
}
use monya.IndexVector
use monya.IndexVector.{IndexVal, IndexVector, Algorithms, val_lt, placeholders}
use monya.IndexVector.Order.{NoneBelow, IsSorted}
use monya.IndexVector.Laws.{IsAlgorithms, int_index_lem}
use monya.MemoryIo.{MemoryIo}
use monya.MemoryIo.Access.{get_elem?-drop}
use monya.NodeView
use monya.NodeView.{NodeView}
use monya.KdTree.{KdNode, run, spawn, spawn_child, next_split}
use monya.KdTree.Divide.{NoneAbove, divided, NoneAbove-val, NoneBelow-val}

module _ {D : Type 0} (s : Scalar D) where
  -- what `run` and then `spawn` make of a node
  pub record IsSplit (io : MemoryIo D) (n m l r : KdNode D) : Type 0 where
    -- the node's items are kept, up to their order, and sorted
    pub same : Perm m.view.data_index.items n.view.data_index.items
    pub in_order : IsSorted s m.view.data_index.items
    -- the children have their indexes, in two halves
    pub left_items :
        l.view.data_index.items
        ≡ placeholders s (
            take
              (length m.view.data_index.items / 2)
              (map (λ iv. iv.index) m.view.data_index.items))
    pub right_items :
        r.view.data_index.items
        ≡ placeholders s (
            drop
              (length m.view.data_index.items / 2)
              (map (λ iv. iv.index) m.view.data_index.items))
    -- the item that `operator[]` reads in the middle: its value is the comparator, and it comes first in
    -- the right half
    pub median : IndexVal D
    pub is_median :
        get_elem? m.view.data_index.items
          (IndexVector.int_index (length m.view.data_index.items / 2))
        ≡ some median
    pub is_comparator : m.view.comparator ≡ median.val
    pub goes_right :
        get_elem? (drop (length m.view.data_index.items / 2) m.view.data_index.items) 0
        ≡ some median
    -- at most the comparator on the left, and at least on the right
    pub at_most :
        NoneAbove s
          (IndexVector.index_val 0 m.view.comparator)
          (take (length m.view.data_index.items / 2) m.view.data_index.items)
    pub at_least :
        NoneBelow s
          (IndexVector.index_val 0 m.view.comparator)
          (drop (length m.view.data_index.items / 2) m.view.data_index.items)
    pub left_depth : l.view.depth ≡ n.view.depth + 1
    pub right_depth : r.view.depth ≡ n.view.depth + 1
    pub left_dim : l.split_dim ≡ next_split io n
    pub right_dim : r.split_dim ≡ next_split io n

  -- the items after the sort of `run`
  abbrev pub sorted_items : Algorithms D → KdNode D → List (IndexVal D)
  sorted_items a n =
      if ltb n.view.depth 3
      then a.parallel_sort n.view.data_index.items
      else a.sort n.view.data_index.items

  pub sorted_items_lem :
      (a : Algorithms D) (n : KdNode D)
      → IsAlgorithms s a
      → Perm (sorted_items a n) n.view.data_index.items × IsSorted s (sorted_items a n)
  sorted_items_lem a n laws = elim (Bool-cases (ltb n.view.depth 3)) [
    | inl e ↦ rw e (
      laws.parallel_sort_perm n.view.data_index.items,
      laws.parallel_sort_sorted n.view.data_index.items,
    )
    | inr e ↦
        rw e (laws.sort_perm n.view.data_index.items, laws.sort_sorted n.view.data_index.items)
  ]

  pub perm-pos : (xs ys : List (IndexVal D)) → Perm xs ys → 0 < length ys → 0 < length xs
  perm-pos [] ys p h = let e : ys ≡ [] = sym (Perm.nil-eq p) in absurd (omega (arith, ap length e))
  perm-pos (x ∷ xs) ys p h = omega arith

  get-get_elem? :
      (v : IndexVector D) (i : ℕ) (x : IndexVal D)
      → get_elem? v.items i ≡ some x
      → IndexVector.get v i ≡ ok x
  unfolding IndexVector.get
  get-get_elem? v i x e = ap (λ o. elim o [ none ↦ fault | some iv ↦ ok iv ]) e

  -- the node after `run`
  abbrev pub ran : Algorithms D → KdNode D → IndexVal D → KdNode D
  ran a n x = record n {
    view = record n.view {
      data_index = record n.view.data_index { items = sorted_items a n };
      comparator = x.val;
    };
  }

  pub run-ran :
      (a : Algorithms D) (n : KdNode D) (x : IndexVal D)
      → get_elem? (sorted_items a n) (length (sorted_items a n) / 2) ≡ some x
      → run a n ≡ ok (ran a n x)
  unfolding run NodeView.sort_data_index NodeView.set_comparator IndexVector.size
  run-ran a n x e =
      rw
        (get-get_elem? (record n.view.data_index { items = sorted_items a n })
          (length (sorted_items a n) / 2) x e)
        refl

  -- a child of `spawn`
  abbrev pub spawned : MemoryIo D → Ptr → NodeView D → KdNode D → List ℕ → KdNode D
  spawned io this blank n idxs = record {
    view = record blank {
      data_index = record blank.data_index { items = placeholders s idxs };
      req_indxs = next_split io n ∷ [];
      depth = n.view.depth + 1;
      ioer = n.view.ioer;
      parent = this;
    };
    split_dim = next_split io n;
  }

  spawn_child-spawned :
      (o : IsOrdered s) (io : MemoryIo D) (this : Ptr) (blank : NodeView D) (n : KdNode D)
      (idxs : List ℕ)
      → (this == null) ≡ false
      → (n.view.ioer == null) ≡ false
      → n.view.depth + 1 < 2 ^ 64
      → spawn_child s io this blank n idxs ≡ ok (spawned io this blank n idxs)
  unfolding spawn_child NodeView.bestow NodeView.set_index NodeView.set_ph_data_index
      IndexVector.set_indexes
  spawn_child-spawned o io this blank n idxs t i d =
      let same : s.eq n.view.comparator n.view.comparator ≡ true =
        ground
          (arith, o.eq_lt n.view.comparator n.view.comparator, o.lt_irrefl n.view.comparator) in
      let deeper : (n.view.depth + 1) % 2 ^ 64 ≡ n.view.depth + 1 = omega arith in
      let pos : ltb 0 (n.view.depth + 1) ≡ true = ground arith in simp (deeper, same, t, i, pos)

  pub length-map-index : (xs : List (IndexVal D)) → length (map (λ iv. iv.index) xs) ≡ length xs
  length-map-index [] = refl
  length-map-index (x ∷ xs) = ap suc (length-map-index xs)

  pub spawn-spawned :
      (o : IsOrdered s) (io : MemoryIo D) (this : Ptr) (blank : NodeView D) (n : KdNode D)
      → (this == null) ≡ false
      → (n.view.ioer == null) ≡ false
      → n.view.depth + 1 < 2 ^ 64
      → spawn s io this blank n
        ≡ ok (
          spawned io this blank n (
              take
                (length n.view.data_index.items / 2)
                (map (λ iv. iv.index) n.view.data_index.items)),
          spawned io this blank n (
              drop
                (length n.view.data_index.items / 2)
                (map (λ iv. iv.index) n.view.data_index.items)),
        )
  unfolding spawn IndexVector.get_indexes IndexVector.size
  spawn-spawned o io this blank n t i d =
      let idxs = map (λ iv. iv.index) n.view.data_index.items in
      let half = length n.view.data_index.items / 2 in
      let whole : (length idxs == length n.view.data_index.items) ≡ true =
        ground (arith, length-map-index n.view.data_index.items) in
      rw
        (
          whole,
          spawn_child-spawned o io this blank n (take half idxs) t i d,
          spawn_child-spawned o io this blank n (drop half idxs) t i d,
        )
        refl

  -- A node with samples, fewer than 2 ^ 32, run and then spawned, where the address, the matrix and the
  -- depth are in order: both calls return; the node's items are then sorted by value, the left child
  -- holds the indexes of the first half of them and the right child those of the rest, the comparator
  -- is the value of the item in the middle, which goes to the right, no value on the left is above the
  -- comparator and none on the right is below it, and both children are one level deeper and split on
  -- the next dimension.
  pub run-spawn-IsSplit :
      (o : IsOrdered s) (a : Algorithms D) (io : MemoryIo D) (this : Ptr) (blank : NodeView D)
      (n : KdNode D)
      → IsAlgorithms s a
      → 0 < length n.view.data_index.items
      → length n.view.data_index.items < 2 ^ 32
      → (this == null) ≡ false
      → (n.view.ioer == null) ≡ false
      → n.view.depth + 1 < 2 ^ 64
      → Returns
          (λ (m, l, r). IsSplit io n m l r)
          (run a n >>= λ m. spawn s io this blank m >>= λ c. ok (m, c.0, c.1))
  unfolding next_split
  run-spawn-IsSplit o a io this blank n laws some_item few t i d =
      let (same, sorted) = sorted_items_lem a n laws in
      let pos = perm-pos (sorted_items a n) n.view.data_index.items same some_item in
      let half = length (sorted_items a n) / 2 in
      let (x, e) = get_elem?-in_range (sorted_items a n) half (omega (arith, pos)) in
      let (above, below) = divided s o (sorted_items a n) half x sorted e in
      rw (run-ran a n x e, spawn-spawned o io this blank (ran a n x) t i d)
        (record {
          same = same;
          in_order = sorted;
          left_items = refl;
          right_items = refl;
          median = x;
          is_median =
              ap (get_elem? (sorted_items a n)) (
                int_index_lem half
                  (omega (arith, few, length-perm (sorted_items a n) n.view.data_index.items same)))
              ∙ e;
          is_comparator = refl;
          goes_right =
              get_elem?-drop (sorted_items a n) half 0
              ∙ ap (get_elem? (sorted_items a n)) (omega arith)
              ∙ e;
          at_most =
              NoneAbove-val s x (IndexVector.index_val 0 x.val) (take half (sorted_items a n)) refl
                above;
          at_least =
              NoneBelow-val s x (IndexVector.index_val 0 x.val) (drop half (sorted_items a n)) refl
                below;
          left_depth = refl;
          right_depth = refl;
          left_dim = refl;
          right_dim = refl;
        })
