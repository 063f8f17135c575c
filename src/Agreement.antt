-- ===== src/Agreement.antt =====
-- The search over a k-d tree (src/examples/kdtree.cpp) against the brute-force search
-- (src/validate/BruteForcekNN.hpp) over the same matrix, as the example's `main` compares them.
pub mod Training
pub mod Tests
use mathlib.Core.List.Perm
use mathlib.Core.List.{map-map}
use monya.Prelude.{
  length-perm, ℕ, zero, suc, ◌+◌, ◌*◌, ◌≤◌, ◌<◌, ◌^◌, ◌≡◌, refl, sym, ap, subst, ◌∙◌, true, List,
  [], ◌∷◌, map, Perm, arith, length, take, length-take, drop, get_elem?-take-some, get_elem?, some,
  set, Run, ok, ◌>>=◌, Returns, Returns-mono, value_or, Scalar, IsOrdered,
}
use monya.IndexVector.{IndexVal, index_val, IndexVector, Algorithms, val_eq}
use monya.IndexVector.Order.{IsSorted}
use monya.IndexVector.Laws.{IsAlgorithms}
use monya.IndexVector.Unique.{sorted_eq}
use monya.NodeView.{index_range}
use monya.MemoryIo.{MemoryIo, row, row_of, get_row, view}
use monya.Query
use monya.Query.{ProximityQuery, sum_squares, euclidean}
use monya.Query.Eval.{AllRepresent}
use monya.KdTree.Traversal.{KdMem, distance, find_neighbors}
use monya.KdTree.Traversal.FullTree.{FullTree, samples, nodes, root}
use monya.KdTree.Traversal.Distance.{IsStored, dist_of, measured}
use monya.KdTree.Traversal.Nearest.{IsSearchable, IsNearest, find_neighbors-IsNearest}
use monya.BruteForce
use monya.BruteForce.{BruteForce, row_distance, get_nn}
use monya.BruteForce.Distances.{dist_to, distances, IsComplete}
use monya.BruteForce.Nearest.{IsNearestOf, get_nn-IsNearestOf}

module _ {D : Type 0} (s : Scalar D) where
  -- the brute-force search over the array of a matrix
  abbrev pub brute : MemoryIo D → List D → BruteForce D
  brute io d = BruteForce.create d io.dim.0 io.dim.1

  sum_squares-take :
      (n m : ℕ) (arr other : List D) (res : D)
      → n ≤ m
      → sum_squares s n arr (take m other) res ≡ sum_squares s n arr other res
  unfolding sum_squares
  sum_squares-take zero m arr other res h = refl
  sum_squares-take (suc n) zero arr other res h = absurd (omega arith)
  sum_squares-take (suc n) (suc m) [] other res h = refl
  sum_squares-take (suc n) (suc m) (a ∷ arr) [] res h = refl
  sum_squares-take (suc n) (suc m) (a ∷ arr) (b ∷ other) res h =
      sum_squares-take n m arr other _ (omega arith)

  -- Both compute the same distance to a row.
  distance-row_distance :
      (io : MemoryIo D) (d : List D) (sample : List D) (i : ℕ)
      → IsStored io d true
      → length sample ≡ io.dim.1
      → distance s io sample i ≡ row_distance s (brute io d) sample i
  unfolding distance row_distance euclidean get_row view
  distance-row_distance io d sample i st len =
      rw (st.orientation, st.data_, len)
        (ap (λ r. r >>= λ res. ok (s.sqrt res))
          (sum_squares-take io.dim.1 io.dim.1 sample (drop (i * io.dim.1) d) s.zero_value
            (omega arith)))

  -- the samples of the leaves by their indexes
  measured-map :
      (io : MemoryIo D) (d sample : List D) (ivs : List (IndexVal D))
      → IsStored io d true
      → length sample ≡ io.dim.1
      → measured s io sample ivs
        ≡ map (λ i. index_val i (dist_to s (brute io d) sample i)) (map (λ iv. iv.index) ivs)
  measured-map io d sample [] st len = refl
  measured-map io d sample (iv ∷ ivs) st len =
      ap (λ r. index_val iv.index (value_or s.max_value r) ∷ measured s io sample ivs)
        (distance-row_distance io d sample iv.index st len)
      ∙ ap (◌∷◌ (index_val iv.index (dist_to s (brute io d) sample iv.index)))
          (measured-map io d sample ivs st len)

  distances-map :
      (b : BruteForce D) (sample : List D) (n i : ℕ)
      → distances s b sample n i ≡ map (λ i. index_val i (dist_to s b sample i)) (index_range n i)
  unfolding index_range
  distances-map b sample zero i = refl
  distances-map b sample (suc n) i =
      ap (◌∷◌ (index_val i (dist_to s b sample i))) (distances-map b sample n (i + 1))

  -- Where the leaves hold each sample once, both searches are over the same distances.
  measured-distances :
      (io : MemoryIo D) (d sample : List D) (ivs : List (IndexVal D))
      → IsStored io d true
      → length sample ≡ io.dim.1
      → Perm (map (λ iv. iv.index) ivs) (index_range io.dim.0 0)
      → Perm (measured s io sample ivs) (distances s (brute io d) sample io.dim.0 0)
  measured-distances io d sample ivs st len covers =
      subst (λ l. Perm l (distances s (brute io d) sample io.dim.0 0))
        (sym (measured-map io d sample ivs st len))
        (subst
          (Perm
            (map (λ i. index_val i (dist_to s (brute io d) sample i)) (map (λ iv. iv.index) ivs)))
          (sym (distances-map (brute io d) sample io.dim.0 0)) (Perm.map _ covers))

  -- two lists of one length with equal values
  abbrev pub SameValues : List (IndexVal D) → List (IndexVal D) → Type 0
  SameValues [] [] = Unit
  SameValues [] (y ∷ ys) = ⊥
  SameValues (x ∷ xs) [] = ⊥
  SameValues (x ∷ xs) (y ∷ ys) = (val_eq s x y ≡ true) × SameValues xs ys

  SameValues-get_elem? :
      (xs ys : List (IndexVal D))
      → length xs ≡ length ys
      → ((i : ℕ) (x y : IndexVal D)
          → get_elem? xs i ≡ some x
          → get_elem? ys i ≡ some y
          → val_eq s x y ≡ true)
      → SameValues xs ys
  SameValues-get_elem? [] [] e h = tt
  SameValues-get_elem? [] (y ∷ ys) e h = absurd (omega (arith, e))
  SameValues-get_elem? (x ∷ xs) [] e h = absurd (omega (arith, e))
  SameValues-get_elem? (x ∷ xs) (y ∷ ys) e h =
      (h 0 x y refl refl, SameValues-get_elem? xs ys (omega (arith, e)) (λ i. h (suc i)))

  -- The neighbours that a tree's list stands for have the values of those of the other search.
  pub record Agrees (q : ProximityQuery D) (ls : List (List (IndexVal D))) (tree_id : ℕ)
      (u : ProximityQuery D) (v : IndexVector D) : Type 0 where
    pub found : List (IndexVal D)
    pub lists : AllRepresent s q.k u.result (set ls tree_id found)
    pub values : SameValues found v.items

  agree :
      (o : IsOrdered s) (io : MemoryIo D) (d : List D) (m : KdMem D) (t : FullTree D)
      (q : ProximityQuery D) (ls : List (List (IndexVal D))) (tree_id : ℕ) (u : ProximityQuery D)
      (v : IndexVector D)
      → Perm
          (measured s io q.qsample.data_ (samples m t))
          (distances s (brute io d) q.qsample.data_ (brute io d).nsamples 0)
      → IsNearest s io m t q ls tree_id u
      → IsNearestOf s (brute io d) q.qsample.data_ q.k v
      → Agrees q ls tree_id u v
  agree o io d m t q ls tree_id u v same a b =
      let p : Perm a.all b.all = Perm.trans a.perm (Perm.trans same (Perm.symm b.perm)) in
      record {
        found = take q.k a.all;
        lists = a.lists.lists;
        values =
            SameValues-get_elem? (take q.k a.all) v.items
              (omega (
                arith,
                length-take q.k a.all,
                length-take q.k b.all,
                length-perm a.all b.all p,
                ap length b.items,
              ))
              (λ i x y e f.
                sorted_eq s o a.all b.all i x y a.sorted b.sorted p
                  (get_elem?-take-some q.k a.all i x e)
                  (get_elem?-take-some q.k b.all i y
                    (subst (λ l. get_elem? l i ≡ some y) b.items f)));
      }

  -- Where the leaves hold each row of a row-wise matrix once, the number of neighbours is a `short` that
  -- is not negative, and there are more rows than that and fewer than 2 ^ 32, both searches return, and
  -- find neighbours of the same values.
  pub find_neighbors-get_nn :
      (o : IsOrdered s) (a : Algorithms D) (blank : IndexVal D) (io : MemoryIo D) (d : List D)
      (m : KdMem D) (t : FullTree D) (q : ProximityQuery D) (ls : List (List (IndexVal D)))
      (tree_id fuel : ℕ)
      → IsAlgorithms s a
      → IsSearchable s io d true m t q.qsample.data_
      → Perm (map (λ iv. iv.index) (samples m t)) (index_range io.dim.0 0)
      → AllRepresent s q.k q.result ls
      → get_elem? ls tree_id ≡ some []
      → nodes t < fuel
      → q.k < 2 ^ 15
      → io.dim.0 < 2 ^ 32
      → q.k < io.dim.0
      → Returns
          (λ u. Returns (Agrees q ls tree_id u) (get_nn s a blank (brute io d) q.qsample.data_ q.k))
          (find_neighbors s fuel io m tree_id (root t) q)
  find_neighbors-get_nn o a blank io d m t q ls tree_id fuel laws h covers r e f short rows more =
      let sample : List D = q.qsample.data_ in
      let all_rows : (brute io d).nsamples ≡ io.dim.0 = omega (arith, rows) in
      let complete : IsComplete s (brute io d) sample = record {
        size = rw all_rows (omega (arith, h.stored.size));
        width = omega (arith, h.width);
      } in
      let same =
        subst (λ n. Perm (measured s io sample (samples m t)) (distances s (brute io d) sample n 0))
          (sym all_rows) (measured-distances io d sample (samples m t) h.stored h.width covers) in
      Returns-mono _ (find_neighbors s fuel io m tree_id (root t) q)
        (find_neighbors-IsNearest s o io d true m t q ls tree_id fuel h r e f)
        λ u nu.
          Returns-mono _ (get_nn s a blank (brute io d) sample q.k)
            (get_nn-IsNearestOf s o a blank (brute io d) sample q.k laws complete
              (omega (arith, short)) (omega (arith, all_rows, rows))
              (omega (arith, all_rows, more)))
            λ v nv. agree o io d m t q ls tree_id u v same nu nv
