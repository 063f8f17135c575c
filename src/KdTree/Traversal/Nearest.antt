-- ===== src/KdTree/Traversal/Nearest.antt =====
-- A query over the tree finds the nearest of all the samples in the leaves.
use mathlib.Core.List.Perm
use mathlib.Core.List.{append-nil}
use monya.Prelude.{
  ℕ, ◌<◌, ◌≡◌, refl, sym, ap, subst, ◌∙◌, Bool, List, [], ◌∷◌, ◌++◌, Ptr, Bool-cases, inl, inr, ok,
  Returns, Returns-mono, bind-Returns, Scalar, IsOrdered, length, get_elem?, some, ◌>>=◌, Perm,
  take, set, set-set, set-get_elem?, get_elem?-set,
}
use monya.IndexVector.{IndexVal, index_val}
use monya.IndexVector.Order.{
  ordered_insert, insert_all, kept, kept-insert_all, IsSorted, insert_all-IsSorted, insert_all-perm,
}
use monya.MemoryIo.{MemoryIo}
use monya.BinaryTree.Shape.{Distinct, Shape}
use monya.Query.{ProximityQuery}
use monya.Query
use monya.Query.Eval.{AllRepresent, eval-kept}
use monya.KdTree.Traversal.{KdMem, distance, eval_samples, find_neighbors}
use monya.KdTree.Traversal.FullTree.{FullTree, tip, fork, tree, nodes, root, samples}
use monya.KdTree.Traversal.Descent.{goes_right, path_samples, path_samples-perm, InDims}
use monya.KdTree.Traversal.Ascent.{find_neighbors-samples}
use monya.KdTree.Traversal.Distance.{IsStored, dist_of, distance-dist_of, measured}

module _ {D : Type 0} (s : Scalar D) where
  -- the samples are rows of the matrix
  abbrev pub InRows : ℕ → List (IndexVal D) → Type 0
  InRows n [] = Unit
  InRows n (iv ∷ ivs) = (iv.index < n) × InRows n ivs

  InRows-append :
      (n : ℕ) (xs ys : List (IndexVal D)) → InRows n xs → InRows n ys → InRows n (xs ++ ys)
  InRows-append n [] ys h k = k
  InRows-append n (x ∷ xs) ys h k = (h.0, InRows-append n xs ys h.1 k)

  abbrev pub LeavesInRows : ℕ → KdMem D → FullTree D → Type 0
  LeavesInRows n m (tip a k) = InRows n (m.data_index a).items
  LeavesInRows n m (fork l a k r) = LeavesInRows n m l × LeavesInRows n m r

  samples-InRows :
      (n : ℕ) (m : KdMem D) (t : FullTree D) → LeavesInRows n m t → InRows n (samples m t)
  samples-InRows n m (tip a k) h = h
  samples-InRows n m (fork l a k r) h =
      InRows-append n (samples m r) (samples m l) (samples-InRows n m r h.1)
        (samples-InRows n m l h.0)

  path_samples-InRows :
      (n : ℕ) (m : KdMem D) (q : ProximityQuery D) (t : FullTree D)
      → LeavesInRows n m t
      → InRows n (path_samples s m q t)
  path_samples-InRows n m q (tip a k) h = h
  path_samples-InRows n m q (fork l a k r) h = elim (Bool-cases (goes_right s m q a)) [
    | inl e ↦
        rw e (InRows-append n _ _ (path_samples-InRows n m q r h.1) (samples-InRows n m l h.0))
    | inr e ↦
        rw e (InRows-append n _ _ (path_samples-InRows n m q l h.0) (samples-InRows n m r h.1))
  ]

  -- what a query is for, and the lists that it stands for
  pub record HasLists (k : ℕ) (sample : List D) (ls : List (List (IndexVal D)))
      (q : ProximityQuery D) : Type 0 where
    pub bound : q.k ≡ k
    pub sample_ : q.qsample.data_ ≡ sample
    pub lists : AllRepresent s k q.result ls

  eval-HasLists :
      (k : ℕ) (sample : List D) (q : ProximityQuery D) (ls : List (List (IndexVal D))) (id : ℕ)
      (x : D) (tree_id : ℕ) (l : List (IndexVal D))
      → HasLists k sample ls q
      → get_elem? ls tree_id ≡ some l
      → Returns
          (HasLists k sample (set ls tree_id (take k (ordered_insert s (index_val id x) l))))
          (Query.eval s q id x tree_id)
  eval-HasLists k sample q ls id x tree_id l r e =
      Returns-mono _ (Query.eval s q id x tree_id)
        (eval-kept s q ls id x tree_id l
          (subst (λ n. AllRepresent s n q.result ls) (sym r.bound) r.lists) e)
        λ u (uk, us, ur). record {
          bound = uk ∙ r.bound;
          sample_ = ap (λ v. v.data_) us ∙ r.sample_;
          lists =
              subst
                (λ n.
                  AllRepresent s n u.result
                    (set ls tree_id (take n (ordered_insert s (index_val id x) l))))
                r.bound ur;
        }

  -- a query with its sample, and the matrix that it is compared with
  module _ (io : MemoryIo D) (d : List D) (by_row : Bool) (tree_id : ℕ) (st : IsStored io d by_row)
      (some_dim : 0 < io.dim.1) where
    eval_samples-HasLists :
        (k : ℕ) (sample : List D) (ivs : List (IndexVal D)) (q : ProximityQuery D)
        (ls : List (List (IndexVal D))) (l : List (IndexVal D))
        → InRows io.dim.0 ivs
        → length sample ≡ io.dim.1
        → HasLists k sample ls q
        → get_elem? ls tree_id ≡ some l
        → Returns
            (HasLists k sample (set ls tree_id (kept s k l (measured s io sample ivs))))
            (eval_samples s io tree_id ivs q)
    unfolding eval_samples kept
    eval_samples-HasLists k sample [] q ls l h w r e =
        subst (λ z. HasLists k sample z q) (sym (set-get_elem? ls tree_id l e)) r
    eval_samples-HasLists k sample (iv ∷ ivs) q ls l h w r e =
        let x : D = dist_of s io sample iv.index in
        let l1 : List (IndexVal D) = take k (ordered_insert s (index_val iv.index x) l) in
        let rest : List (IndexVal D) = kept s k l1 (measured s io sample ivs) in
        let dist_ok : distance s io q.qsample.data_ iv.index ≡ ok x =
          ap (λ v. distance s io v iv.index) r.sample_
          ∙ distance-dist_of s io d by_row sample iv.index st w some_dim h.0 in
        subst
          (λ z.
            Returns (HasLists k sample (set ls tree_id rest)) (
              z >>= λ y.
              Query.eval s q iv.index y tree_id >>= λ u. eval_samples s io tree_id ivs u))
          (sym dist_ok)
          (bind-Returns _ (Query.eval s q iv.index x tree_id) _
            (eval-HasLists k sample q ls iv.index x tree_id l r e)
            λ u ur.
              subst (λ z. Returns (HasLists k sample z) (eval_samples s io tree_id ivs u))
                (set-set ls tree_id l1 rest)
                (eval_samples-HasLists k sample ivs u (set ls tree_id l1) l1 h.1 w ur
                  (get_elem?-set ls tree_id l l1 e)))

  -- A tree of full nodes in the memory of the program, whose leaves hold rows of a matrix that is
  -- stored in full, and a sample of its width.
  pub record IsSearchable (io : MemoryIo D) (d : List D) (by_row : Bool) (m : KdMem D)
      (t : FullTree D) (sample : List D) : Type 0 where
    pub stored : IsStored io d by_row
    pub some_dim : 0 < io.dim.1
    pub width : length sample ≡ io.dim.1
    pub parent : Ptr
    pub shape : Shape m.links (root t) parent (tree t)
    pub distinct : Distinct (tree t)
    pub dims : InDims s m (length sample) t
    pub rows : LeavesInRows io.dim.0 m t

  -- a list of neighbours for one tree that is exact: the first of all the samples in the leaves,
  -- sorted by their distance
  pub record IsNearest (io : MemoryIo D) (m : KdMem D) (t : FullTree D) (q : ProximityQuery D)
      (ls : List (List (IndexVal D))) (tree_id : ℕ) (u : ProximityQuery D) : Type 0 where
    pub all : List (IndexVal D)
    pub sorted : IsSorted s all
    pub perm : Perm all (measured s io q.qsample.data_ (samples m t))
    pub lists : HasLists q.k q.qsample.data_ (set ls tree_id (take q.k all)) u

  -- `find_neighbors` returns, with fuel above the number of nodes; the list of the tree is then that
  -- of the nearest of all the samples in the leaves, and the lists of other trees stay as they are.
  pub find_neighbors-IsNearest :
      (o : IsOrdered s) (io : MemoryIo D) (d : List D) (by_row : Bool) (m : KdMem D)
      (t : FullTree D) (q : ProximityQuery D) (ls : List (List (IndexVal D))) (tree_id fuel : ℕ)
      → IsSearchable io d by_row m t q.qsample.data_
      → AllRepresent s q.k q.result ls
      → get_elem? ls tree_id ≡ some []
      → nodes t < fuel
      → Returns (IsNearest io m t q ls tree_id) (find_neighbors s fuel io m tree_id (root t) q)
  find_neighbors-IsNearest o io d by_row m t q ls tree_id fuel h r e f =
      let ivs : List (IndexVal D) = path_samples s m q t in
      let found : List (IndexVal D) = measured s io q.qsample.data_ ivs in
      rw (find_neighbors-samples s m io tree_id t h.parent fuel q h.shape h.distinct h.dims f) (
        Returns-mono _ (eval_samples s io tree_id ivs q)
          (eval_samples-HasLists io d by_row tree_id h.stored h.some_dim q.k q.qsample.data_ ivs q
            ls [] (path_samples-InRows io.dim.0 m q t h.rows) h.width
            (record { bound = refl; sample_ = refl; lists = r }) e)
          λ u k. record {
            all = insert_all s [] found;
            sorted = insert_all-IsSorted s o [] found tt;
            perm = Perm.trans (insert_all-perm s [] found) (
                subst (λ z. Perm z (measured s io q.qsample.data_ (samples m t)))
                  (sym (append-nil found)) (Perm.map _ (path_samples-perm s m q t)));
            lists =
                subst (λ z. HasLists q.k q.qsample.data_ (set ls tree_id z) u)
                  (kept-insert_all s q.k found) k;
          })
