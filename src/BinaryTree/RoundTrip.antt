-- ===== src/BinaryTree/RoundTrip.antt =====
-- What `find` answers after an `insert`.
use monya.Prelude.{
  ℕ, suc, ◌<◌, ◌≡◌, refl, true, arith, if◌then◌else◌, Bool-cases, inl, inr, Run, ◌>>=◌, Returns,
  bind-Returns, throw, runtime_error, subst, Scalar, IsOrdered, Ptr,
}
use monya.BinaryTree.{BinaryTree, insert, find}
use monya.BinaryTree.Shape.{Tree, leaf, node, has, size, tree_insert}
use monya.BinaryTree.Insert.{Holds, IsNew, insert-tree_insert}
use monya.BinaryTree.Search.{
  IsSearchTree, tree_insert-IsSearchTree, equivalent, holds_key, find_complete,
}

module _ {D : Type 0} (s : Scalar D) where
  size-tree_insert : (q : Ptr) (k : D) (t : Tree D) → size (tree_insert s q k t) ≡ suc (size t)
  unfolding tree_insert size
  size-tree_insert q k leaf = refl
  size-tree_insert q k (node l o x r) =
      ground (arith, size-tree_insert q k l, size-tree_insert q k r)

  module _ (o : IsOrdered s) where
    holds_key-tree_insert :
        (q : Ptr) (k : D) (t : Tree D) → holds_key s k (tree_insert s q k t) ≡ true
    unfolding tree_insert holds_key
    holds_key-tree_insert q k leaf = rw (o.lt_irrefl k) refl
    holds_key-tree_insert q k (node l p x r) = elim (Bool-cases (s.lt k x)) [
      | inl less ↦ rw less (ground (arith, holds_key-tree_insert q k l))
      | inr more ↦ rw more (ground (arith, holds_key-tree_insert q k r))
    ]

    -- With fuel above the number of nodes, a `find` of the new node's comparator after its `insert`
    -- returns a node that is in the tree then and whose comparator is equivalent.
    pub insert-find :
        (fuel : ℕ) (t : BinaryTree D) (tr : Tree D) (q : Ptr)
        → Holds t tr
        → IsSearchTree s tr
        → IsNew t tr q
        → suc (size tr) < fuel
        → Returns
            (λ (u, p).
              (tr' : Tree D) × Holds u tr'
              × IsSearchTree s tr'
              × (has p tr' ≡ true)
              × (equivalent s (t.mem.comparator q) (u.mem.comparator p) ≡ true))
            (insert s fuel t q >>= λ u. find s fuel u (t.mem.comparator q) >>= λ p. Run.ok (u, p))
    insert-find fuel t tr q h sorted new enough =
        let k = t.mem.comparator q in
        let grown = tree_insert s q k tr in
        let ordered = tree_insert-IsSearchTree s q k tr sorted in
        bind-Returns _ (insert s fuel t q) _ (insert-tree_insert s fuel t tr q h new (omega arith))
          λ u hu.
            bind-Returns _ (find s fuel u k) _
              (subst
                (λ b.
                  if b
                  then Returns
                      (λ p. (has p grown ≡ true) × (equivalent s k (u.mem.comparator p) ≡ true))
                      (find s fuel u k)
                  else (find s fuel u k ≡ throw runtime_error))
                (holds_key-tree_insert q k tr)
                (find_complete s o fuel u grown k hu ordered
                  (omega (arith, size-tree_insert q k tr))))
              λ p (inside, same). (grown, hu, ordered, inside, same)
