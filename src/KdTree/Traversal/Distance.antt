-- ===== src/KdTree/Traversal/Distance.antt =====
-- The distance from a query's sample to a row of the matrix.
use monya.Prelude.{
  ℕ, zero, suc, ◌-◌, ◌*◌, ◌≤◌, ◌<◌, ◌≡◌, ◌∙◌, Bool, true, false, arith, List, [], ◌∷◌,
  if◌then◌else◌, ok, Returns, Returns-mono, Returns-value, value_or, bind-Returns, Scalar, length,
  get_elem?, get_elem?-in_range, some, map,
}
use native.Mathlib.Nat.{mul_comm}
use monya.IndexVector.{IndexVal, index_val}
use monya.MemoryIo.{MemoryIo, row, col}
use monya.MemoryIo.Access.{get_row-get_col, position, in_range}
use monya.MemoryIo
use monya.Query.{sum_squares, euclidean}
use monya.Query.Distance.{sum_squares-Returns}
use monya.KdTree.Traversal.{distance}

module _ {D : Type 0} where
  -- a matrix that is stored in full
  pub record IsStored (io : MemoryIo D) (d : List D) (by_row : Bool) : Type 0 where
    pub data_ : io.data_ ≡ some d
    pub orientation : io.orientation ≡ (if by_row then row else col)
    pub size : length d ≡ io.dim.0 * io.dim.1

  pub get_elem?-below : (xs : List D) (i : ℕ) (x : D) → get_elem? xs i ≡ some x → i < length xs
  get_elem?-below [] i x e = cc
  get_elem?-below (y ∷ xs) zero x e = omega arith
  get_elem?-below (y ∷ xs) (suc i) x e = omega (arith, get_elem?-below xs i x e)

  pub position-below :
      (io : MemoryIo D) (by_row : Bool) (r c : ℕ)
      → r < io.dim.0
      → c < io.dim.1
      → position io by_row r c < io.dim.0 * io.dim.1
  position-below io true r c h k = in_range r c io.dim.0 io.dim.1 h k
  position-below io false r c h k =
      rw (mul_comm io.dim.0 io.dim.1) (in_range c r io.dim.1 io.dim.0 k h)

  get_row-length :
      (io : MemoryIo D) (d : List D) (by_row : Bool) (r : ℕ)
      → IsStored io d by_row
      → r < io.dim.0
      → 0 < io.dim.1
      → Returns (λ xs. io.dim.1 ≤ length xs) (MemoryIo.get_row io r)
  get_row-length io d by_row r st h w =
      let last : ℕ = io.dim.1 - 1 in
      let below : last < io.dim.1 = omega (arith, w) in
      let (x, e) =
        get_elem?-in_range d (position io by_row r last)
          (rw st.size (position-below io by_row r last h below)) in
      Returns-mono _ (MemoryIo.get_row io r)
        (get_row-get_col io d by_row r last st.data_ st.orientation st.size h below).0
        λ xs f. omega (arith, w, get_elem?-below xs last x (f ∙ e))

module _ {D : Type 0} (s : Scalar D) where
  -- the distance that the code computes
  abbrev pub dist_of : MemoryIo D → List D → ℕ → D
  dist_of io sample idx = value_or s.max_value (distance s io sample idx)

  -- The distance to a row of the matrix, for a sample of its width.
  pub distance-dist_of :
      (io : MemoryIo D) (d : List D) (by_row : Bool) (sample : List D) (idx : ℕ)
      → IsStored io d by_row
      → length sample ≡ io.dim.1
      → 0 < io.dim.1
      → idx < io.dim.0
      → distance s io sample idx ≡ ok (dist_of io sample idx)
  unfolding distance euclidean
  distance-dist_of io d by_row sample idx st len w h =
      Returns-value s.max_value (distance s io sample idx) (
        bind-Returns _ (MemoryIo.get_row io idx) _ (get_row-length io d by_row idx st h w) λ xs k.
          bind-Returns _ (sum_squares s (length sample) sample xs s.zero_value) _
            (sum_squares-Returns s (length sample) sample xs s.zero_value (omega arith)
              (omega (arith, k, len)))
            λ _ _. tt)

  abbrev pub measured : MemoryIo D → List D → List (IndexVal D) → List (IndexVal D)
  measured io sample = map (λ iv. index_val iv.index (dist_of io sample iv.index))
