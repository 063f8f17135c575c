-- ===== src/NodeView/Prep.antt =====
-- `prep` puts the values of the requested column on the samples that the node holds.
use monya.Prelude.{
  ℕ, ◌<◌, ◌≡◌, refl, false, some, List, [], ◌∷◌, arith, ok, Returns, bind-Returns, ◌==◌, length,
  get_elem?, get_elem?-in_range,
}
use monya.IndexVector.{IndexVal}
use monya.MemoryIo.{MemoryIo, get_col}
use monya.NodeView.{NodeView, fill, prep, set_column}

module _ {D : Type 0} where
  -- the second list has the indexes of the first, with the values of the column
  abbrev pub Filled : List D → List (IndexVal D) → List (IndexVal D) → Type 0
  Filled ret [] [] = Unit
  Filled ret [] (y ∷ ys) = ⊥
  Filled ret (x ∷ xs) [] = ⊥
  Filled ret (x ∷ xs) (y ∷ ys) =
      (y.index ≡ x.index) × (get_elem? ret x.index ≡ some y.val) × Filled ret xs ys

  abbrev pub AllWithin : ℕ → List (IndexVal D) → Type 0
  AllWithin n [] = Unit
  AllWithin n (x ∷ xs) = (x.index < n) × AllWithin n xs

  pub fill-Filled :
      (ret : List D) (xs : List (IndexVal D))
      → AllWithin (length ret) xs
      → Returns (Filled ret xs) (fill ret xs)
  unfolding fill
  fill-Filled ret [] h = tt
  fill-Filled ret (x ∷ xs) h =
      let (v, e) = get_elem?-in_range ret x.index h.0 in
      rw e (
        bind-Returns (Filled ret (x ∷ xs)) (fill ret xs) _ (fill-Filled ret xs h.1)
          λ ys f. (refl, e, f))

  -- For a node that holds samples and requests one column, which the matrix returns and which has an
  -- entry for each of them, `prep` returns: each sample keeps its index, its value is the column's
  -- entry for it, and nothing else of the node changes.
  pub prep-Filled :
      (io : MemoryIo D) (v : NodeView D) (req : ℕ) (ret : List D)
      → v.req_indxs ≡ req ∷ []
      → get_col io req ≡ ok ret
      → 0 < length v.data_index.items
      → AllWithin (length ret) v.data_index.items
      → Returns
          (λ w.
            Filled ret v.data_index.items w.data_index.items
            × (w ≡ record v { data_index = record v.data_index { items = w.data_index.items } }))
          (prep io v)
  unfolding prep set_column
  prep-Filled io v req ret one fetched some_item h =
      let held : (length v.data_index.items == 0) ≡ false = ground arith in
      simp (one, fetched, held)
        (bind-Returns _ (fill ret v.data_index.items) _ (fill-Filled ret v.data_index.items h)
          λ ys f. (f, refl))
