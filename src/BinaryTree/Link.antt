-- ===== src/BinaryTree/Link.antt =====
-- What the links that `insert` sets do to a tree.
use monya.Prelude.{
  ◌<◌, ◌≡◌, refl, true, false, arith, ◌==◌, Bool-cases, inl, inr, ◌⊎◌, ==_refl, ==_sym, Scalar, Ptr,
}
use monya.TreeMemory.{Mem}
use monya.BinaryTree.Shape.{
  Tree, leaf, node, has, Distinct, Shape, Same, has_ne, Shape-frame, tree_insert, parent_of, linked,
}

module _ {D : Type 0} (s : Scalar D) where
  parent_of_inside :
      (k : D) (t : Tree D) (a : Ptr)
      → (a == parent_of s k t a) ≡ true ⊎ (has (parent_of s k t a) t ≡ true)
  unfolding parent_of
  parent_of_inside k leaf a = inl (==_refl a)
  parent_of_inside k (node l p x r) a =
      ground (arith, parent_of_inside k l p, parent_of_inside k r p, ==_refl p)

  linked-Same :
      (m : Mem D) (par q : Ptr) (k : D) (a : Ptr)
      → (a == q) ≡ false
      → (a == par) ≡ false
      → Same m (linked s m par q k) a
  linked-Same m par q k a h n = (refl, refl, ground arith, ground arith, ground arith)

  -- a subtree that holds neither the new node nor its parent
  Shape-linked_apart :
      (m : Mem D) (par q : Ptr) (k : D) (p o : Ptr) (t : Tree D)
      → Shape m p o t
      → has q t ≡ false
      → has par t ≡ false
      → Shape (linked s m par q k) p o t
  Shape-linked_apart m par q k p o t sh h n =
      Shape-frame m (linked s m par q k) p o t sh
        λ a i. linked-Same m par q k a (has_ne a q t i h) (has_ne a par t i n)

  pub linked_leaf :
      (m : Mem D) (par q : Ptr) (k : D)
      → 0 < q
      → m.live q ≡ true
      → m.comparator q ≡ k
      → (q == par) ≡ false
      → Shape (linked s m par q k) q par (node leaf q k leaf)
  linked_leaf m par q k pos live e other =
      (refl, pos, live, e, ground arith, ground arith, ground arith)

  abbrev pub IsNode : Tree D → Type 0
  IsNode leaf = ⊥
  IsNode (node l o x r) = Unit {0}

  -- the parent of a new leaf of a tree that is not empty is one of its nodes
  pub parent_of-IsNode :
      (k : D) (t : Tree D) (a : Ptr) → IsNode t → has (parent_of s k t a) t ≡ true
  unfolding parent_of
  parent_of-IsNode k leaf a n = elim n [ ]
  parent_of-IsNode k (node l p x r) a n =
      ground (arith, parent_of_inside k l p, parent_of_inside k r p, ==_refl p)

  -- what the recursion on a subtree has to give
  abbrev pub Linked : Mem D → Ptr → D → Ptr → Ptr → Tree D → Type 0
  Linked m q k p par t = Shape (linked s m (parent_of s k t par) q k) p par (tree_insert s q k t)

  linked_under_left :
      (m : Mem D) (a q : Ptr) (k : D) (p par : Ptr) (l : Tree D) (o : Ptr) (x : D) (r l' : Tree D)
      → Shape m p par (node l o x r)
      → (o == q) ≡ false
      → (o == a) ≡ false
      → has q r ≡ false
      → has a r ≡ false
      → Shape (linked s m a q k) (m.left o) o l'
      → Shape (linked s m a q k) p par (node l' o x r)
  linked_under_left m a q k p par l o x r l' sh h n hr nr rest =
      let same = linked-Same m a q k o h n in
      (
        sh.0,
        sh.1,
        sh.2,
        sh.3,
        ground arith,
        rw (same.3) rest,
        rw (same.4) (Shape-linked_apart m a q k (m.right o) o r sh.6 hr nr),
      )

  linked_on_left :
      (m : Mem D) (q : Ptr) (k : D) (p par : Ptr) (l : Tree D) (o : Ptr) (x : D) (r : Tree D)
      → Shape m p par (node l o x r)
      → Distinct (node l o x r)
      → has q (node l o x r) ≡ false
      → 0 < q
      → m.live q ≡ true
      → m.comparator q ≡ k
      → s.lt k x ≡ true
      → (IsNode l → Linked m q k (m.left o) o l)
      → Shape (linked s m (parent_of s k l o) q k) p par (node (tree_insert s q k l) o x r)
  unfolding parent_of tree_insert
  linked_on_left m q k p par leaf o x r sh d out pos live e less rest =
      let goes : s.lt k (m.comparator o) ≡ true = rw (sh.3) less in
      let apart : (o == q) ≡ false = ground arith in
      let here : (linked s m o q k).left o ≡ q = rw (goes, ==_refl o) in
      let there : (linked s m o q k).right o ≡ m.right o = rw (goes, apart) in
      (
        sh.0,
        sh.1,
        sh.2,
        sh.3,
        ground arith,
        rw here (linked_leaf m o q k pos live e (ground arith)),
        rw there (Shape-linked_apart m o q k (m.right o) o r sh.6 (ground arith) d.1),
      )
  linked_on_left m q k p par (node ll lo lx lr) o x r sh d out pos live e less rest =
      let inside = parent_of-IsNode k (node ll lo lx lr) o tt in
      linked_under_left m (parent_of s k (node ll lo lx lr) o) q k p par (node ll lo lx lr) o x r
        (tree_insert s q k (node ll lo lx lr)) sh (ground arith)
        (==_sym _ o (has_ne _ o (node ll lo lx lr) inside d.0)) (ground arith)
        (d.2 (parent_of s k (node ll lo lx lr) o) inside) (rest tt)

  linked_under_right :
      (m : Mem D) (a q : Ptr) (k : D) (p par : Ptr) (l : Tree D) (o : Ptr) (x : D) (r r' : Tree D)
      → Shape m p par (node l o x r)
      → (o == q) ≡ false
      → (o == a) ≡ false
      → has q l ≡ false
      → has a l ≡ false
      → Shape (linked s m a q k) (m.right o) o r'
      → Shape (linked s m a q k) p par (node l o x r')
  linked_under_right m a q k p par l o x r r' sh h n hl nl rest =
      let same = linked-Same m a q k o h n in
      (
        sh.0,
        sh.1,
        sh.2,
        sh.3,
        ground arith,
        rw (same.3) (Shape-linked_apart m a q k (m.left o) o l sh.5 hl nl),
        rw (same.4) rest,
      )

  linked_on_right :
      (m : Mem D) (q : Ptr) (k : D) (p par : Ptr) (l : Tree D) (o : Ptr) (x : D) (r : Tree D)
      → Shape m p par (node l o x r)
      → Distinct (node l o x r)
      → has q (node l o x r) ≡ false
      → 0 < q
      → m.live q ≡ true
      → m.comparator q ≡ k
      → s.lt k x ≡ false
      → (IsNode r → Linked m q k (m.right o) o r)
      → Shape (linked s m (parent_of s k r o) q k) p par (node l o x (tree_insert s q k r))
  unfolding parent_of tree_insert
  linked_on_right m q k p par l o x leaf sh d out pos live e more rest =
      let goes : s.lt k (m.comparator o) ≡ false = rw (sh.3) more in
      let apart : (o == q) ≡ false = ground arith in
      let here : (linked s m o q k).right o ≡ q = rw (goes, ==_refl o) in
      let there : (linked s m o q k).left o ≡ m.left o = rw (goes, apart) in
      (
        sh.0,
        sh.1,
        sh.2,
        sh.3,
        ground arith,
        rw there (Shape-linked_apart m o q k (m.left o) o l sh.5 (ground arith) d.0),
        rw here (linked_leaf m o q k pos live e (ground arith)),
      )
  linked_on_right m q k p par l o x (node rl ro rx rr) sh d out pos live e more rest =
      let a = parent_of s k (node rl ro rx rr) o in
      let inside = parent_of-IsNode k (node rl ro rx rr) o tt in
      linked_under_right m a q k p par l o x (node rl ro rx rr)
        (tree_insert s q k (node rl ro rx rr)) sh (ground arith)
        (==_sym a o (has_ne a o (node rl ro rx rr) inside d.1)) (ground arith)
        (elim (Bool-cases (has a l)) [ inl both ↦ cc (d.2 a both) | inr apart ↦ apart ]) (rest tt)

  -- The links that `insert` sets turn the nodes of a tree into those of the tree with the new leaf.
  pub tree_insert-Linked :
      (m : Mem D) (q : Ptr) (k : D) (p par : Ptr) (t : Tree D)
      → IsNode t
      → Shape m p par t
      → Distinct t
      → has q t ≡ false
      → 0 < q
      → m.live q ≡ true
      → m.comparator q ≡ k
      → Linked m q k p par t
  unfolding parent_of tree_insert
  tree_insert-Linked m q k p par leaf n sh d out pos live e = elim n [ ]
  tree_insert-Linked m q k p par (node l o x r) n sh d out pos live e =
      elim (Bool-cases (s.lt k x)) [
        | inl less ↦ rw less (
            linked_on_left m q k p par l o x r sh d out pos live e less
              (λ n. tree_insert-Linked m q k (m.left o) o l n sh.5 d.3 (ground arith) pos live e))
        | inr more ↦ rw more (
            linked_on_right m q k p par l o x r sh d out pos live e more
              (λ n. tree_insert-Linked m q k (m.right o) o r n sh.6 d.4 (ground arith) pos live e))
      ]
