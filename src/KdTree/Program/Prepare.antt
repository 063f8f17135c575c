-- ===== src/KdTree/Program/Prepare.antt =====
-- `prep` of a k-d node: a new root gets every sample of its column, another node the values of the
-- samples that it has.
use monya.Prelude.{
  ℕ, suc, ◌-◌, ◌≤◌, ◌<◌, ◌≡◌, refl, ap, ◌∙◌, Bool, true, List, [], ◌∷◌, map, arith, Returns,
  Returns-mono, bind-Returns, length, take, length-take, get_elem?-in_range, mem, ◌==◌,
  if◌then◌else◌, Bool-cases, inl, inr,
}
use monya.IndexVector.{IndexVal, contiguous, set_indexes_values}
use monya.MemoryIo.{MemoryIo, get_col}
use monya.MemoryIo.Access.{get_row-get_col, position}
use monya.NodeView.{NodeView, index_range, prep, set_column, fill}
use monya.NodeView.Prep.{Filled, AllWithin, fill-Filled}
use monya.KdTree.{KdNode}
use monya.KdTree.Traversal.Distance.{IsStored, get_elem?-below, position-below}

module _ {D : Type 0} where
  abbrev pub indexes : List (IndexVal D) → List ℕ
  indexes = map (λ iv. iv.index)

  -- the samples that a node is for: all of them, where it holds none yet
  abbrev pub samples_of : MemoryIo D → List (IndexVal D) → List ℕ
  samples_of io items = if length items == 0 then index_range io.dim.0 0 else indexes items

  -- a node that can be prepared: it asks for its dimension, and its samples are rows of the matrix
  pub record IsReadyNode (io : MemoryIo D) (n : KdNode D) : Type 0 where
    pub request : n.view.req_indxs ≡ n.split_dim ∷ []
    pub dim : n.split_dim < io.dim.1
    pub rows : (i : ℕ) → mem i (samples_of io n.view.data_index.items) ≡ true → i < io.dim.0

  -- what `prep` makes of the view of a node
  pub record IsPrepared (io : MemoryIo D) (v w : NodeView D) : Type 0 where
    pub some_sample : 0 < length w.data_index.items
    pub samples : indexes w.data_index.items ≡ samples_of io v.data_index.items
    pub rest : w ≡ record v { data_index = record v.data_index { items = w.data_index.items } }

  get_col-length :
      (io : MemoryIo D) (d : List D) (by_row : Bool) (c : ℕ)
      → IsStored io d by_row
      → 0 < io.dim.0
      → c < io.dim.1
      → Returns (λ ys. io.dim.0 ≤ length ys) (get_col io c)
  get_col-length io d by_row c st h w =
      let last : ℕ = io.dim.0 - 1 in
      let below : last < io.dim.0 = omega (arith, h) in
      let (x, e) =
        get_elem?-in_range d (position io by_row last c)
          (rw st.size (position-below io by_row last c below w)) in
      Returns-mono _ (get_col io c)
        (get_row-get_col io d by_row last c st.data_ st.orientation st.size below w).1
        λ ys f. omega (arith, h, get_elem?-below ys last x (f ∙ e))

  Filled-indexes :
      (ret : List D) (xs ys : List (IndexVal D)) → Filled ret xs ys → indexes ys ≡ indexes xs
  Filled-indexes ret [] [] f = refl
  Filled-indexes ret [] (y ∷ ys) f = absurd f
  Filled-indexes ret (x ∷ xs) [] f = absurd f
  Filled-indexes ret (x ∷ xs) (y ∷ ys) f = rw (f.0, Filled-indexes ret xs ys f.2) refl

  AllWithin-mem :
      (n : ℕ) (xs : List (IndexVal D))
      → ((i : ℕ) → mem i (indexes xs) ≡ true → i < n)
      → AllWithin n xs
  AllWithin-mem n [] h = tt
  AllWithin-mem n (x ∷ xs) h =
      (h x.index (ground arith), AllWithin-mem n xs λ i e. h i (ground arith))

  pub length-indexes : (xs : List (IndexVal D)) → length (indexes xs) ≡ length xs
  length-indexes [] = refl
  length-indexes (x ∷ xs) = ap suc (length-indexes xs)

  contiguous-indexes : (vs : List D) (i : ℕ) → indexes (contiguous i vs) ≡ index_range (length vs) i
  unfolding contiguous index_range
  contiguous-indexes [] i = refl
  contiguous-indexes (v ∷ vs) i =
      ap (◌∷◌ i) (contiguous-indexes vs (suc i) ∙ ap (index_range (length vs)) (omega arith))

  length-contiguous : (vs : List D) (i : ℕ) → length (contiguous i vs) ≡ length vs
  unfolding contiguous
  length-contiguous [] i = refl
  length-contiguous (v ∷ vs) i = ap suc (length-contiguous vs (suc i))

  set_column-IsPrepared :
      (io : MemoryIo D) (v : NodeView D) (ret : List D)
      → 0 < io.dim.0
      → io.dim.0 ≤ length ret
      → ((i : ℕ) → mem i (samples_of io v.data_index.items) ≡ true → i < io.dim.0)
      → Returns (IsPrepared io v) (set_column io v ret)
  unfolding set_column set_indexes_values
  set_column-IsPrepared io v ret h len rows = elim (Bool-cases (length v.data_index.items == 0)) [
    | inl none_yet ↦
        let taken : length (take io.dim.0 ret) ≡ io.dim.0 =
          omega (arith, length-take io.dim.0 ret) in
        rw none_yet (record {
          some_sample = omega (arith, length-contiguous (take io.dim.0 ret) 0);
          samples =
              rw none_yet
                (contiguous-indexes (take io.dim.0 ret) 0 ∙ ap (λ n. index_range n 0) taken);
          rest = refl;
        })
    | inr some_held ↦
        let within : (i : ℕ) → mem i (indexes v.data_index.items) ≡ true → i < length ret =
          λ i e. let j : i < io.dim.0 = rows i (rw some_held e) in omega arith in
        rw some_held (
          bind-Returns (IsPrepared io v) (fill ret v.data_index.items) _
            (fill-Filled ret v.data_index.items
              (AllWithin-mem (length ret) v.data_index.items within))
            λ ys f.
              let same = Filled-indexes ret v.data_index.items ys f in
              record {
                some_sample =
                    ground
                      (arith, length-indexes ys, length-indexes v.data_index.items, ap length same);
                samples = rw some_held same;
                rest = refl;
              })
  ]

  pub prep-IsPrepared :
      (io : MemoryIo D) (d : List D) (by_row : Bool) (n : KdNode D)
      → IsStored io d by_row
      → 0 < io.dim.0
      → IsReadyNode io n
      → Returns (IsPrepared io n.view) (prep io n.view)
  unfolding prep
  prep-IsPrepared io d by_row n st h r = simp r.request (
      bind-Returns (IsPrepared io n.view) (get_col io n.split_dim) _
        (get_col-length io d by_row n.split_dim st h r.dim)
        λ ret len. set_column-IsPrepared io n.view ret h len r.rows)
