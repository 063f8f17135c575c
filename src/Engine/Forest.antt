-- ===== src/Engine/Forest.antt =====
-- A query over a forest of k-d trees finds the nearest samples in each of them.
use monya.Prelude.{
  ℕ, suc, ◌<◌, ◌≡◌, refl, sym, ap, subst, ◌∙◌, false, Bool, List, [], ◌∷◌, Perm, arith, length,
  get_elem?, get_elem?-set_other, some, set, get_elem?-set, take, Run, Returns, Returns-mono,
  bind-Returns, Scalar, IsOrdered, Ptr, ◌==◌,
}
use monya.IndexVector.{IndexVal}
use monya.IndexVector.Order.{IsSorted}
use monya.MemoryIo.{MemoryIo}
use monya.Query.{ProximityQuery}
use monya.Query
use monya.Query.Eval.{AllRepresent}
use monya.KdTree.Traversal.{KdMem, find_neighbors}
use monya.KdTree.Traversal.FullTree.{FullTree, samples, nodes, root}
use monya.KdTree.Traversal.Distance.{measured}
use monya.KdTree.Traversal.Nearest.{IsSearchable, IsNearest, HasLists, find_neighbors-IsNearest}
use monya.Engine.{ComputeEngine, query, query_all}

-- a tree of the forest: what `find_neighbors` reads of a `kdTreeProgram`
pub record KdTreeProgram (D : Type 0) : Type 0 where
  pub mem : KdMem D
  pub root_ : Ptr
  pub tree_id : ℕ

module _ {D : Type 0} (s : Scalar D) (fuel : ℕ) (io : MemoryIo D) where
  abbrev pub find : KdTreeProgram D → ProximityQuery D → Run (ProximityQuery D)
  find p q = find_neighbors s fuel io p.mem p.tree_id p.root_ q

  -- The programs hold these trees, and are numbered from `i` on.
  abbrev pub AreSearchable :
      List D → Bool → List D → ℕ → List (KdTreeProgram D) → List (FullTree D) → Type 0
  AreSearchable d by_row sample i [] [] = Unit
  AreSearchable d by_row sample i [] (t ∷ ts) = ⊥
  AreSearchable d by_row sample i (p ∷ ps) [] = ⊥
  AreSearchable d by_row sample i (p ∷ ps) (t ∷ ts) =
      IsSearchable s io d by_row p.mem t sample
      × (p.root_ ≡ root t)
      × (p.tree_id ≡ i)
      × (nodes t < fuel)
      × AreSearchable d by_row sample (suc i) ps ts

  -- the lists that a query has not filled yet, from that of tree `i` on
  abbrev pub AreEmpty : List (List (IndexVal D)) → ℕ → List (FullTree D) → Type 0
  AreEmpty ls i [] = Unit
  AreEmpty ls i (t ∷ ts) = (get_elem? ls i ≡ some []) × AreEmpty ls (suc i) ts

  -- the nearest `k` of the samples of a tree, sorted by their distance
  pub record IsNearestList (k : ℕ) (sample : List D) (m : KdMem D) (t : FullTree D)
      (l : List (IndexVal D)) : Type 0 where
    pub all : List (IndexVal D)
    pub sorted : IsSorted s all
    pub perm : Perm all (measured s io sample (samples m t))
    pub first : l ≡ take k all

  abbrev pub AreNearest :
      ℕ
      → List D
      → List (List (IndexVal D))
      → ℕ
      → List (KdTreeProgram D)
      → List (FullTree D)
      → Type 0
  AreNearest k sample ls i [] ts = Unit
  AreNearest k sample ls i (p ∷ ps) [] = Unit
  AreNearest k sample ls i (p ∷ ps) (t ∷ ts) =
      ((l : List (IndexVal D)) × (get_elem? ls i ≡ some l) × IsNearestList k sample p.mem t l)
      × AreNearest k sample ls (suc i) ps ts

  -- a query whose lists, from that of tree `i` on, are the nearest, those before as they were
  record IsAnswered (k : ℕ) (sample : List D) (ls : List (List (IndexVal D))) (i : ℕ)
      (ps : List (KdTreeProgram D)) (ts : List (FullTree D)) (u : ProximityQuery D) : Type 0 where
    pub after : List (List (IndexVal D))
    pub has : HasLists s k sample after u
    pub earlier : (j : ℕ) → j < i → get_elem? after j ≡ get_elem? ls j
    pub nearest : AreNearest k sample after i ps ts

  AreEmpty-set :
      (ls : List (List (IndexVal D))) (i j : ℕ) (l : List (IndexVal D)) (ts : List (FullTree D))
      → i < j
      → AreEmpty ls j ts
      → AreEmpty (set ls i l) j ts
  AreEmpty-set ls i j l [] h e = tt
  AreEmpty-set ls i j l (t ∷ ts) h e = (
    get_elem?-set_other ls i j l (omega arith) ∙ e.0,
    AreEmpty-set ls i (suc j) l ts (omega arith) e.1,
  )

  module _ (o : IsOrdered s) (d : List D) (by_row : Bool) (k : ℕ) (sample : List D)
      (some_sample : 0 < length sample) where
    -- one tree of the forest
    run-IsNearest :
        (p : KdTreeProgram D) (t : FullTree D) (q : ProximityQuery D)
        (ls : List (List (IndexVal D))) (i : ℕ)
        → IsSearchable s io d by_row p.mem t sample
        → p.root_ ≡ root t
        → p.tree_id ≡ i
        → nodes t < fuel
        → get_elem? ls i ≡ some []
        → HasLists s k sample ls q
        → Returns (IsNearest s io p.mem t q ls i) (Query.run (find p) q)
    unfolding Query.run Query.dense_empty
    run-IsNearest p t q ls i h at id f e r =
        let not_empty : (length q.qsample.data_ == 0) ≡ false =
          ground (arith, ap length r.sample_, some_sample) in
        rw (not_empty, at, id)
          (find_neighbors-IsNearest s o io d by_row p.mem t q ls i fuel
            (subst (IsSearchable s io d by_row p.mem t) (sym r.sample_) h)
            (subst (λ n. AllRepresent s n q.result ls) (sym r.bound) r.lists) e f)

    query_all-IsAnswered :
        (ps : List (KdTreeProgram D)) (ts : List (FullTree D)) (i : ℕ)
        (ls : List (List (IndexVal D))) (q : ProximityQuery D)
        → AreSearchable d by_row sample i ps ts
        → AreEmpty ls i ts
        → HasLists s k sample ls q
        → Returns (IsAnswered k sample ls i ps ts) (query_all find ps q)
    unfolding query_all
    query_all-IsAnswered [] [] i ls q h e r = record {
      after = ls;
      has = r;
      earlier = λ j lt. refl;
      nearest = tt;
    }
    query_all-IsAnswered [] (t ∷ ts) i ls q h e r = absurd h
    query_all-IsAnswered (p ∷ ps) [] i ls q h e r = absurd h
    query_all-IsAnswered (p ∷ ps) (t ∷ ts) i ls q h e r =
        bind-Returns _ (Query.run (find p) q) _ (run-IsNearest p t q ls i h.0 h.1 h.2 h.3 e.0 r)
          λ u n.
            Returns-mono _ (query_all find ps u)
              (query_all-IsAnswered ps ts (suc i) (set ls i (take k n.all)) u h.4
                (AreEmpty-set ls i (suc i) (take k n.all) ts (omega arith) e.1)
                (subst (λ z. HasLists s k z (set ls i (take k n.all)) u) r.sample_
                  (subst (λ x. HasLists s x q.qsample.data_ (set ls i (take x n.all)) u) r.bound
                    n.lists)))
              λ v m. record {
                after = m.after;
                has = m.has;
                earlier = λ j lt.
                    m.earlier j (omega (arith, lt))
                    ∙ get_elem?-set_other ls i j (take k n.all) (omega (arith, lt));
                nearest = (
                  (
                    take k n.all,
                    m.earlier i (omega arith) ∙ get_elem?-set ls i [] (take k n.all) e.0,
                    record {
                      all = n.all;
                      sorted = n.sorted;
                      perm =
                          subst (λ z. Perm n.all (measured s io z (samples p.mem t))) r.sample_
                            n.perm;
                      first = refl;
                    },
                  ),
                  m.nearest,
                );
              }

    -- `query` of the engine returns, and the list of each tree is then that of the nearest of its
    -- samples.
    pub query-AreNearest :
        (e : ComputeEngine (KdTreeProgram D)) (ts : List (FullTree D))
        (ls : List (List (IndexVal D))) (q : ProximityQuery D)
        → AreSearchable d by_row sample 0 e.forest ts
        → AreEmpty ls 0 ts
        → HasLists s k sample ls q
        → Returns
            (λ u.
              (after : List (List (IndexVal D))) × HasLists s k sample after u
              × AreNearest k sample after 0 e.forest ts)
            (query find e q)
    unfolding query
    query-AreNearest e ts ls q h empty r =
        Returns-mono _ (query_all find e.forest q)
          (query_all-IsAnswered e.forest ts 0 ls q h empty r) λ u a. (a.after, a.has, a.nearest)
