-- ===== src/BinaryTree/Insert.antt =====
-- `insert` and `find` of `BinaryTree` against the tree that the memory holds.
use monya.Prelude.{
  ℕ, zero, suc, ◌<◌, ◌≡◌, refl, true, false, ◌||◌, arith, ◌==◌, Bool-cases, inl, inr, Scalar, Ptr,
  null, update, ok, Returns,
}
use monya.TreeMemory.{Mem, get_comparator, get_left, get_right}
use monya.BinaryTree.Shape.{
  size, Tree, leaf, node, has, Distinct, Shape, tree_insert, parent_of, linked,
}
use monya.BinaryTree.{BinaryTree, descend, attach, insert}
use monya.BinaryTree.Link.{tree_insert-Linked}

module _ {D : Type 0} where
  -- the memory holds the tree, under the root pointer
  pub record Holds (t : BinaryTree D) (tr : Tree D) : Type 0 where
    pub shape : Shape t.mem t.root null tr
    pub distinct : Distinct tr

  -- what a node must be to be inserted: allocated, not NULL and not in the tree
  pub record IsNew (t : BinaryTree D) (tr : Tree D) (q : Ptr) : Type 0 where
    pub live : t.mem.live q ≡ true
    pub pos : 0 < q
    pub absent : has q tr ≡ false

module _ {D : Type 0} (s : Scalar D) where
  descend-parent_of :
      (fuel : ℕ) (m : Mem D) (q p par : Ptr) (t : Tree D)
      → Shape m p par t
      → m.live q ≡ true
      → size t < fuel
      → descend s fuel m q p par ≡ ok (parent_of s (m.comparator q) t par)
  unfolding descend parent_of size get_comparator get_left get_right
  descend-parent_of zero m q p par t sh l f = absurd (omega arith)
  descend-parent_of (suc fuel) m q p par leaf sh l f = ground arith
  descend-parent_of (suc fuel) m q p par (node lt o x rt) sh l f =
      let left_way = descend-parent_of fuel m q (m.left o) o lt sh.5 l (omega arith) in
      let right_way = descend-parent_of fuel m q (m.right o) o rt sh.6 l (omega arith) in
      let some_node : (o == null) ≡ false = ground arith in
      rw (sh.0, some_node, l, sh.2, sh.3)
        (elim (Bool-cases (s.lt (m.comparator q) x)) [
          | inl less ↦ rw less left_way
          | inr more ↦ rw more right_way
        ])

  attach-linked :
      (t : BinaryTree D) (q par : Ptr)
      → (par == null) ≡ false
      → t.mem.live q ≡ true
      → t.mem.live par ≡ true
      → attach s t q par ≡ ok (record t { mem = linked s t.mem par q (t.mem.comparator q) })
  unfolding attach
  attach-linked t q par some_parent lq lp =
      elim (Bool-cases (s.lt (t.mem.comparator q) (t.mem.comparator par))) [
        | inl less ↦ simp (some_parent, lq, lp, less)
        | inr more ↦ simp (some_parent, lq, lp, more)
      ]

  pub has-tree_insert :
      (q : Ptr) (k : D) (t : Tree D) (a : Ptr) → has a (tree_insert s q k t) ≡ ((a == q) || has a t)
  unfolding tree_insert
  has-tree_insert q k leaf a = ground arith
  has-tree_insert q k (node l o x r) a =
      ground (arith, has-tree_insert q k l a, has-tree_insert q k r a)

  Distinct-tree_insert :
      (q : Ptr) (k : D) (t : Tree D) → has q t ≡ false → Distinct t → Distinct (tree_insert s q k t)
  unfolding tree_insert
  Distinct-tree_insert q k leaf h d = (refl, refl, λ a i. refl, tt, tt)
  Distinct-tree_insert q k (node l o x r) h d = elim (Bool-cases (s.lt k x)) [
    | inl less ↦ rw less (
      ground (arith, has-tree_insert q k l o),
      d.1,
      λ a i. elim (Bool-cases (a == q)) [
        | inl e ↦ let same : a ≡ q = ground arith in rw same (ground arith)
        | inr other ↦ d.2 a (ground (arith, has-tree_insert q k l a))
      ],
      Distinct-tree_insert q k l (ground arith) d.3,
      d.4,
    )
    | inr more ↦ rw more (
      d.0,
      ground (arith, has-tree_insert q k r o),
      λ a i. elim (Bool-cases (a == q)) [
        | inl e ↦
            let same : a ≡ q = ground arith in
            let out : has a l ≡ false = rw same (ground arith) in cc
        | inr other ↦ ground (arith, d.2 a i, has-tree_insert q k r a)
      ],
      d.3,
      Distinct-tree_insert q k r (ground arith) d.4,
    )
  ]

  parent_of-live :
      (m : Mem D) (p par : Ptr) (k : D) (t : Tree D)
      → Shape m p par t
      → m.live par ≡ true
      → (par == null) ≡ false
      → (m.live (parent_of s k t par) ≡ true) × ((parent_of s k t par == null) ≡ false)
  unfolding parent_of
  parent_of-live m p par k leaf sh l n = (l, n)
  parent_of-live m p par k (node lt o x rt) sh l n = ground (
    arith,
    parent_of-live m (m.left o) o k lt sh.5 sh.2,
    parent_of-live m (m.right o) o k rt sh.6 sh.2,
  )

  parent_of-root :
      (m : Mem D) (p : Ptr) (k : D) (l : Tree D) (o : Ptr) (x : D) (r : Tree D)
      → Shape m p null (node l o x r)
      → (m.live (parent_of s k (node l o x r) null) ≡ true)
        × ((parent_of s k (node l o x r) null == null) ≡ false)
  unfolding parent_of
  parent_of-root m p k l o x r sh = ground (
    arith,
    parent_of-live m (m.left o) o k l sh.5 sh.2,
    parent_of-live m (m.right o) o k r sh.6 sh.2,
  )

  attach_root :
      (t : BinaryTree D) (q : Ptr)
      → t.mem.live q ≡ true
      → attach s t q null
        ≡ ok (record t {
          mem = record t.mem {
            parent = update t.mem.parent q null;
            left = update t.mem.left q null;
            right = update t.mem.right q null;
          };
          root = q;
        })
  unfolding attach
  attach_root t q lq = simp lq

  attach-Holds :
      (t : BinaryTree D) (tr : Tree D) (q : Ptr)
      → Holds t tr
      → IsNew t tr q
      → Returns
          (λ u. Holds u (tree_insert s q (t.mem.comparator q) tr))
          (attach s t q (parent_of s (t.mem.comparator q) tr null))
  unfolding parent_of tree_insert
  attach-Holds t leaf q h n = rw (attach_root t q n.live) (record {
    shape = (refl, n.pos, n.live, refl, ground arith, ground arith, ground arith);
    distinct = (refl, refl, λ a i. refl, tt, tt);
  })
  attach-Holds t (node l o x r) q h n =
      let k : D = t.mem.comparator q in
      let (live, some_parent) = parent_of-root t.mem t.root k l o x r h.shape in
      rw (attach-linked t q (parent_of s k (node l o x r) null) some_parent n.live live) (record {
        shape =
            tree_insert-Linked s t.mem q k t.root null (node l o x r) tt h.shape h.distinct n.absent
              n.pos n.live refl;
        distinct = Distinct-tree_insert q k (node l o x r) n.absent h.distinct;
      })

  -- With fuel above the number of nodes `insert` returns, and the memory then holds the tree with a
  -- leaf for the node: left of the larger comparators, right of the others.
  pub insert-tree_insert :
      (fuel : ℕ) (t : BinaryTree D) (tr : Tree D) (q : Ptr)
      → Holds t tr
      → IsNew t tr q
      → size tr < fuel
      → Returns (λ u. Holds u (tree_insert s q (t.mem.comparator q) tr)) (insert s fuel t q)
  unfolding insert
  insert-tree_insert fuel t tr q h n f =
      rw (descend-parent_of fuel t.mem q t.root null tr h.shape n.live f) (attach-Holds t tr q h n)
