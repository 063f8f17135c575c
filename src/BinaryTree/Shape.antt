-- ===== src/BinaryTree/Shape.antt =====
-- Trees of addresses and comparators, what a memory must hold for one, and the insertion of a leaf.
use monya.Prelude.{
  ℕ, suc, ◌+◌, ◌<◌, ◌≡◌, Bool, true, false, ◌||◌, arith, ◌==◌, if◌then◌else◌, Bool-cases, inl, inr,
  Scalar, Ptr, null, update, ap,
}
use monya.TreeMemory.{Mem}

pub data Tree (D : Type 0) : Type 0 where
  leaf : Tree D
  node : Tree D → Ptr → D → Tree D → Tree D

module _ {D : Type 0} where
  abbrev pub has : Ptr → Tree D → Bool
  has a leaf = false
  has a (node l q k r) = (a == q) || (has a l || has a r)

  abbrev pub Distinct : Tree D → Type 0
  Distinct leaf = Unit
  Distinct (node l q k r) =
      (has q l ≡ false)
      × (has q r ≡ false)
      × ((a : Ptr) → has a l ≡ true → has a r ≡ false)
      × Distinct l
      × Distinct r

  -- `p` heads the nodes of the tree, whose parent is `par`.
  abbrev pub Shape : Mem D → Ptr → Ptr → Tree D → Type 0
  Shape m p par leaf = p ≡ null
  Shape m p par (node l q k r) =
      (p ≡ q)
      × (0 < q)
      × (m.live q ≡ true)
      × (m.comparator q ≡ k)
      × (m.parent q ≡ par)
      × Shape m (m.left q) q l
      × Shape m (m.right q) q r

  unfoldable pub size : Tree D → ℕ
  size leaf = 0
  size (node l q k r) = suc (size l + size r)

  abbrev pub Same : Mem D → Mem D → Ptr → Type 0
  Same m m' q =
      (m'.live q ≡ m.live q)
      × (m'.comparator q ≡ m.comparator q)
      × (m'.parent q ≡ m.parent q)
      × (m'.left q ≡ m.left q)
      × (m'.right q ≡ m.right q)

  pub has_ne : (a b : Ptr) (t : Tree D) → has a t ≡ true → has b t ≡ false → (a == b) ≡ false
  has_ne a b t h n = elim (Bool-cases (a == b)) [
    | inl e ↦ let same : a ≡ b = ground arith in cc (ap (λ z. has z t) same)
    | inr e ↦ e
  ]

  pub Shape-frame :
      (m m' : Mem D) (p par : Ptr) (t : Tree D)
      → Shape m p par t
      → ((q : Ptr) → has q t ≡ true → Same m m' q)
      → Shape m' p par t
  Shape-frame m m' p par leaf sh same = sh
  Shape-frame m m' p par (node l q k r) sh same =
      let here : Same m m' q = same q (ground arith) in
      let on_left : Shape m' (m.left q) q l =
        Shape-frame m m' (m.left q) q l sh.5 (λ a h. same a (ground arith)) in
      let on_right : Shape m' (m.right q) q r =
        Shape-frame m m' (m.right q) q r sh.6 (λ a h. same a (ground arith)) in
      (sh.0, sh.1, ground arith, ground arith, ground arith, rw here.3 on_left, rw here.4 on_right)

module _ {D : Type 0} (s : Scalar D) where
  -- a leaf for `q` with comparator `k`: left of the larger comparators, right of the others
  unfoldable pub tree_insert : Ptr → D → Tree D → Tree D
  tree_insert q k leaf = node leaf q k leaf
  tree_insert q k (node l p x r) =
      if s.lt k x then node (tree_insert q k l) p x r else node l p x (tree_insert q k r)

  -- the node under which it goes
  unfoldable pub parent_of : D → Tree D → Ptr → Ptr
  parent_of k leaf par = par
  parent_of k (node l p x r) par = if s.lt k x then parent_of k l p else parent_of k r p

  -- the memory after the links are set, for a parent that is not NULL
  abbrev pub linked : Mem D → Ptr → Ptr → D → Mem D
  linked m par q k = record m {
    parent = update m.parent q par;
    left =
        if s.lt k (m.comparator par)
        then update (update m.left q null) par q
        else update m.left q null;
    right =
        if s.lt k (m.comparator par)
        then update m.right q null
        else update (update m.right q null) par q;
  }

  pub parent_of-mem :
      (k : D) (t : Tree D) (par a : Ptr)
      → (a == par) ≡ false
      → has a t ≡ false
      → (a == parent_of k t par) ≡ false
  unfolding parent_of
  parent_of-mem k leaf par a h n = h
  parent_of-mem k (node l p x r) par a h n =
      ground (arith, parent_of-mem k l p a, parent_of-mem k r p a)
