-- ===== src/BinaryTree/Search.antt =====
-- The order of a search tree, `find`, the count of `get_nnodes` and the lines of `echo`.
use monya.Prelude.{
  ℕ, zero, suc, ◌+◌, ◌<◌, ◌≡◌, refl, ap, ◌∙◌, Bool, true, false, ◌&&◌, ◌||◌, not, Option, none,
  some, List, [], ◌∷◌, ◌++◌, arith, ◌==◌, if◌then◌else◌, ==_refl, Bool-cases, inl, inr, Run, ok,
  throw, runtime_error, Returns, Scalar, IsOrdered, Ptr, null,
}
use monya.TreeMemory.{Mem, get_comparator, get_left, get_right}
use monya.BinaryTree.{BinaryTree, find, find_loop, get_nnodes, echo}
use monya.BinaryTree.Shape.{Tree, leaf, node, has, Shape, size, tree_insert}
use monya.BinaryTree.Insert.{Holds}

module _ {D : Type 0} (s : Scalar D) where
  abbrev pub AllBelow : D → Tree D → Type 0
  AllBelow k leaf = Unit
  AllBelow k (node l o x r) = (s.lt x k ≡ true) × AllBelow k l × AllBelow k r

  abbrev pub NoneBelow : D → Tree D → Type 0
  NoneBelow k leaf = Unit
  NoneBelow k (node l o x r) = (s.lt x k ≡ false) × NoneBelow k l × NoneBelow k r

  -- smaller comparators on the left, the others on the right
  abbrev pub IsSearchTree : Tree D → Type 0
  IsSearchTree leaf = Unit
  IsSearchTree (node l o x r) = AllBelow x l × NoneBelow x r × IsSearchTree l × IsSearchTree r

  AllBelow-tree_insert :
      (q : Ptr) (k b : D) (t : Tree D)
      → s.lt k b ≡ true
      → AllBelow b t
      → AllBelow b (tree_insert s q k t)
  unfolding tree_insert
  AllBelow-tree_insert q k b leaf h a = (h, tt, tt)
  AllBelow-tree_insert q k b (node l o x r) h a =
      ground (arith, AllBelow-tree_insert q k b l h a.1, AllBelow-tree_insert q k b r h a.2)

  NoneBelow-tree_insert :
      (q : Ptr) (k b : D) (t : Tree D)
      → s.lt k b ≡ false
      → NoneBelow b t
      → NoneBelow b (tree_insert s q k t)
  unfolding tree_insert
  NoneBelow-tree_insert q k b leaf h a = (h, tt, tt)
  NoneBelow-tree_insert q k b (node l o x r) h a =
      ground (arith, NoneBelow-tree_insert q k b l h a.1, NoneBelow-tree_insert q k b r h a.2)

  pub tree_insert-IsSearchTree :
      (q : Ptr) (k : D) (t : Tree D) → IsSearchTree t → IsSearchTree (tree_insert s q k t)
  unfolding tree_insert
  tree_insert-IsSearchTree q k leaf h = (tt, tt, tt, tt)
  tree_insert-IsSearchTree q k (node l o x r) h = elim (Bool-cases (s.lt k x)) [
    | inl less ↦
        rw less
          (AllBelow-tree_insert q k x l less h.0, h.1, tree_insert-IsSearchTree q k l h.2, h.3)
    | inr more ↦
        rw more
          (h.0, NoneBelow-tree_insert q k x r more h.1, h.2, tree_insert-IsSearchTree q k r h.3)
  ]

  -- neither comparator is below the other
  abbrev pub equivalent : D → D → Bool
  equivalent a b = not (s.lt a b) && not (s.lt b a)

  unfoldable pub holds_key : D → Tree D → Bool
  holds_key k leaf = false
  holds_key k (node l o x r) = equivalent k x || (holds_key k l || holds_key k r)

  -- the node that the walk of `find` ends at
  unfoldable pub tree_find : D → Tree D → Option Ptr
  tree_find k leaf = none
  tree_find k (node l o x r) =
      if s.lt k x then tree_find k l else if s.lt x k then tree_find k r else some o

  -- the outcome of `find` for that node
  abbrev pub outcome : Option Ptr → Run Ptr
  outcome none = throw runtime_error
  outcome (some p) = ok p

  find_loop-tree_find :
      (fuel : ℕ) (m : Mem D) (k : D) (p par : Ptr) (t : Tree D)
      → Shape m p par t
      → size t < fuel
      → find_loop s fuel m k p ≡ outcome (tree_find k t)
  unfolding find_loop tree_find size get_comparator get_left get_right
  find_loop-tree_find zero m k p par t sh f = absurd (omega arith)
  find_loop-tree_find (suc fuel) m k p par leaf sh f = ground arith
  find_loop-tree_find (suc fuel) m k p par (node l o x r) sh f =
      let some_node : (o == null) ≡ false = ground arith in
      let left_way = find_loop-tree_find fuel m k (m.left o) o l sh.5 (omega arith) in
      let right_way = find_loop-tree_find fuel m k (m.right o) o r sh.6 (omega arith) in
      rw (sh.0, some_node, sh.2, sh.3)
        (elim (Bool-cases (s.lt k x)) [
          | inl less ↦ rw less left_way
          | inr not_less ↦ rw not_less (elim (Bool-cases (s.lt x k)) [
            | inl more ↦ rw more right_way
            | inr same ↦ rw same refl
          ])
        ])

  module _ (o : IsOrdered s) where
    AllBelow-misses :
        (k b : D) (t : Tree D) → AllBelow b t → s.lt b k ≡ true → holds_key k t ≡ false
    unfolding holds_key
    AllBelow-misses k b leaf a h = refl
    AllBelow-misses k b (node l p x r) a h =
        ground (arith, o.lt_trans x b k, AllBelow-misses k b l a.1 h, AllBelow-misses k b r a.2 h)

    NoneBelow-misses :
        (k b : D) (t : Tree D) → NoneBelow b t → s.lt k b ≡ true → holds_key k t ≡ false
    unfolding holds_key
    NoneBelow-misses k b leaf a h = refl
    NoneBelow-misses k b (node l p x r) a h =
        ground (arith, o.lt_weak k x b, NoneBelow-misses k b l a.1 h, NoneBelow-misses k b r a.2 h)

    -- what the walk says of the tree
    abbrev Found : Mem D → D → Tree D → Option Ptr → Type 0
    Found m k t none = holds_key k t ≡ false
    Found m k t (some p) =
        (holds_key k t ≡ true) × (has p t ≡ true) × (equivalent k (m.comparator p) ≡ true)

    Found-left :
        (m : Mem D) (k : D) (l : Tree D) (q : Ptr) (x : D) (r : Tree D) (f : Option Ptr)
        → equivalent k x ≡ false
        → holds_key k r ≡ false
        → Found m k l f
        → Found m k (node l q x r) f
    unfolding holds_key
    Found-left m k l q x r none e h f = ground arith
    Found-left m k l q x r (some p) e h f = (ground arith, ground arith, f.2)

    Found-right :
        (m : Mem D) (k : D) (l : Tree D) (q : Ptr) (x : D) (r : Tree D) (f : Option Ptr)
        → equivalent k x ≡ false
        → holds_key k l ≡ false
        → Found m k r f
        → Found m k (node l q x r) f
    unfolding holds_key
    Found-right m k l q x r none e h f = ground arith
    Found-right m k l q x r (some p) e h f = (ground arith, ground arith, f.2)

    tree_find-Found :
        (m : Mem D) (k : D) (p par : Ptr) (t : Tree D)
        → Shape m p par t
        → IsSearchTree t
        → Found m k t (tree_find k t)
    unfolding tree_find holds_key
    tree_find-Found m k p par leaf sh h = refl
    tree_find-Found m k p par (node l q x r) sh h = elim (Bool-cases (s.lt k x)) [
      | inl less ↦ rw less (
          Found-left m k l q x r (tree_find k l) (ground arith) (NoneBelow-misses k x r h.1 less)
            (tree_find-Found m k (m.left q) q l sh.5 h.2))
      | inr not_less ↦ elim (Bool-cases (s.lt x k)) [
        | inl more ↦
            rw (not_less, more)
              (Found-right m k l q x r (tree_find k r) (ground arith)
                (AllBelow-misses k x l h.0 more) (tree_find-Found m k (m.right q) q r sh.6 h.3))
        | inr same ↦
            rw (not_less, same)
              (ground arith, ground (arith, ==_refl q), rw (sh.3, not_less, same) refl)
      ]
    ]

    -- `find` over a search tree, with fuel above the number of nodes: where an equivalent comparator is
    -- held it returns a node of the tree with one, and elsewhere it throws.
    pub find_complete :
        (fuel : ℕ) (t : BinaryTree D) (tr : Tree D) (k : D)
        → Holds t tr
        → IsSearchTree tr
        → size tr < fuel
        → (if holds_key k tr
            then Returns
                (λ p. (has p tr ≡ true) × (equivalent k (t.mem.comparator p) ≡ true))
                (find s fuel t k)
            else (find s fuel t k ≡ throw runtime_error))
    unfolding find
    find_complete fuel t tr k h o' f =
        rw (find_loop-tree_find fuel t.mem k t.root null tr h.shape f)
          (answer (tree_find k tr) (tree_find-Found t.mem k t.root null tr h.shape o'))
      where
        answer :
            (a : Option Ptr)
            → Found t.mem k tr a
            → (if holds_key k tr
                then Returns
                    (λ p. (has p tr ≡ true) × (equivalent k (t.mem.comparator p) ≡ true))
                    (outcome a)
                else (outcome a ≡ throw runtime_error))
        answer none g = rw g refl
        answer (some p) g = rw g.0 (g.1, g.2)

module _ {D : Type 0} where
  -- `get_nnodes` adds the number of nodes to the counter.
  pub get_nnodes-size :
      (fuel : ℕ) (m : Mem D) (p par n : ℕ) (t : Tree D)
      → Shape m p par t
      → size t < fuel
      → get_nnodes fuel m p n ≡ ok (n + size t)
  unfolding get_nnodes size get_left get_right
  get_nnodes-size zero m p par n t sh f = absurd (omega arith)
  get_nnodes-size (suc fuel) m p par n leaf sh f = rw sh (ap ok (omega arith))
  get_nnodes-size (suc fuel) m p par n (node l q k r) sh f =
      let some_node : (q == null) ≡ false = ground arith in
      rw (sh.0, some_node, sh.2, get_nnodes-size fuel m (m.left q) q (n + 1) l sh.5 (omega arith))
        (get_nnodes-size fuel m (m.right q) q (n + 1 + size l) r sh.6 (omega arith)
          ∙ ap ok (omega arith))

  -- the lines of a tree from left to right, each with the depth of its node
  unfoldable pub lines : ℕ → Tree D → List (ℕ × D)
  lines tabs leaf = []
  lines tabs (node l q k r) = lines (tabs + 1) l ++ (tabs, k) ∷ lines (tabs + 1) r

  -- `echo` prints the comparators in order, indented by their depths.
  pub echo-lines :
      (fuel : ℕ) (m : Mem D) (p par tabs : ℕ) (t : Tree D)
      → Shape m p par t
      → size t < fuel
      → echo fuel m p tabs ≡ ok (lines tabs t)
  unfolding echo lines size get_left get_right get_comparator
  echo-lines zero m p par tabs t sh f = absurd (omega arith)
  echo-lines (suc fuel) m p par tabs leaf sh f = rw sh refl
  echo-lines (suc fuel) m p par tabs (node l q k r) sh f =
      let some_node : (q == null) ≡ false = ground arith in
      rw (sh.0, some_node, sh.2, sh.3)
        (rw
          (
            echo-lines fuel m (m.left q) q (tabs + 1) l sh.5 (omega arith),
            echo-lines fuel m (m.right q) q (tabs + 1) r sh.6 (omega arith),
          )
          refl)
