-- ===== src/MemoryIo/Access.antt =====
-- Rows and columns of a matrix, in both orientations.
use native.Mathlib.Nat.{mul-le-mul_right, suc-mul, mul_comm}
use monya.Prelude.{
  Bool, true, false, if◌then◌else◌, ℕ, zero, suc, ◌+◌, ◌*◌, ◌<◌, ◌≤◌, ◌≡◌, refl, sym, ap, subst,
  ◌∙◌, some, List, [], ◌∷◌, arith, ok, Returns, Returns-mono, bind-Returns, length, get_elem?,
  get_elem?-in_range, take, drop,
}
use monya.MemoryIo.{MemoryIo, row, col, read_at, gather, view, get_row, get_col}

zero_add : (a : ℕ) → 0 + a ≡ a
zero_add a = omega arith

pub in_range : (a b m n : ℕ) → a < m → b < n → a * n + b < m * n
in_range a b m n h k =
    let rows : suc a * n ≤ m * n = mul-le-mul_right n h in omega (arith, rows, suc-mul a n)

module _ {D : Type 0} where
  pub get_elem?-drop :
      (d : List D) (start i : ℕ) → get_elem? (drop start d) i ≡ get_elem? d (start + i)
  get_elem?-drop d zero i = ap (get_elem? d) (omega arith)
  get_elem?-drop [] (suc start) i = refl
  get_elem?-drop (x ∷ d) (suc start) i =
      get_elem?-drop d start i ∙ ap (get_elem? (x ∷ d)) (suc_add start i)
    where
      suc_add : (a b : ℕ) → suc (a + b) ≡ suc a + b
      suc_add a b = omega arith

  get_elem?-take : (xs : List D) (n i : ℕ) → i < n → get_elem? (take n xs) i ≡ get_elem? xs i
  get_elem?-take xs zero i h = absurd (omega arith)
  get_elem?-take [] (suc n) i h = refl
  get_elem?-take (x ∷ xs) (suc n) zero h = refl
  get_elem?-take (x ∷ xs) (suc n) (suc i) h = get_elem?-take xs n i (omega arith)

  pub read_at_lem :
      (io : MemoryIo D) (d : List D) (i : ℕ) (x : D)
      → io.data_ ≡ some d
      → get_elem? d i ≡ some x
      → read_at io i ≡ ok x
  unfolding read_at
  read_at_lem io d i x e f = simp (e, f)

  view-get_elem? :
      (io : MemoryIo D) (d : List D) (start n i : ℕ)
      → io.data_ ≡ some d
      → i < n
      → Returns (λ xs. get_elem? xs i ≡ get_elem? d (start + i)) (view io start n)
  unfolding view
  view-get_elem? io d start n i e h =
      simp e (get_elem?-take (drop start d) n i h ∙ get_elem?-drop d start i)

  gather-get_elem? :
      (io : MemoryIo D) (d : List D) (n from stride offset : ℕ)
      → io.data_ ≡ some d
      → ((j : ℕ) → j < n → (from + j) * stride + offset < length d)
      → Returns
          (λ xs. (i : ℕ) → i < n → get_elem? xs i ≡ get_elem? d ((from + i) * stride + offset))
          (gather io n from stride offset)
  unfolding gather
  gather-get_elem? io d zero from stride offset e h = λ i k. absurd (omega arith)
  gather-get_elem? io d (suc n) from stride offset e h =
      let here : (from + 0) * stride + offset ≡ from * stride + offset =
        ap (λ a. a * stride + offset) (omega arith) in
      let (x, f) =
        get_elem?-in_range d (from * stride + offset)
          (subst (λ a. a < length d) here (h 0 (omega arith))) in
      let on = λ (j : ℕ). ap (λ a. a * stride + offset) (shift from j) in
      rw (read_at_lem io d (from * stride + offset) x e f) (
        bind-Returns _ (gather io n (from + 1) stride offset) _
          (gather-get_elem? io d n (from + 1) stride offset e
            λ j k. subst (λ a. a < length d) (sym (on j)) (h (suc j) (omega arith)))
          λ xs g.
            entries d n from stride offset x xs (sym f ∙ ap (get_elem? d) (sym here))
              λ i k. g i k ∙ ap (get_elem? d) (on i))
    where
      shift : (a j : ℕ) → a + 1 + j ≡ a + suc j
      shift a j = omega arith

      entries :
          (d : List D) (n from stride offset : ℕ) (x : D) (xs : List D)
          → some x ≡ get_elem? d ((from + 0) * stride + offset)
          → ((i : ℕ) → i < n → get_elem? xs i ≡ get_elem? d ((from + suc i) * stride + offset))
          → (i : ℕ) → i < suc n
          → get_elem? (x ∷ xs) i ≡ get_elem? d ((from + i) * stride + offset)
      entries d n from stride offset x xs first rest zero k = first
      entries d n from stride offset x xs first rest (suc i) k = rest i (omega arith)

  cell : (d : List D) (j c m n : ℕ) → length d ≡ m * n → j < m → c < n → (0 + j) * n + c < length d
  cell d j c m n len k h = rw (len, zero_add j) (in_range j c m n k h)

  -- where an entry of the matrix stands in the array
  abbrev pub position : MemoryIo D → Bool → ℕ → ℕ → ℕ
  position io by_row r c = if by_row then r * io.dim.1 + c else c * io.dim.0 + r

  -- In both orientations a row and a column that cross have the same entry there, that of the array's
  -- position for it, and both calls return.
  pub get_row-get_col :
      (io : MemoryIo D) (d : List D) (by_row : Bool) (r c : ℕ)
      → io.data_ ≡ some d
      → io.orientation ≡ (if by_row then row else col)
      → length d ≡ io.dim.0 * io.dim.1
      → r < io.dim.0
      → c < io.dim.1
      → Returns (λ xs. get_elem? xs c ≡ get_elem? d (position io by_row r c)) (get_row io r)
        × Returns (λ ys. get_elem? ys r ≡ get_elem? d (position io by_row r c)) (get_col io c)
  unfolding get_row get_col
  get_row-get_col io d true r c e o len hr hc = simp o (
    view-get_elem? io d (r * io.dim.1) io.dim.1 c e hc,
    Returns-mono _ (gather io io.dim.0 0 io.dim.1 c)
        (gather-get_elem? io d io.dim.0 0 io.dim.1 c e λ j k. cell d j c io.dim.0 io.dim.1 len k hc)
        λ ys g. g r hr ∙ ap (λ a. get_elem? d (a * io.dim.1 + c)) (zero_add r),
  )
  get_row-get_col io d false r c e o len hr hc = simp o (
    Returns-mono _ (gather io io.dim.1 0 io.dim.0 r)
        (gather-get_elem? io d io.dim.1 0 io.dim.0 r e
          λ j k. cell d j r io.dim.1 io.dim.0 (len ∙ mul_comm io.dim.0 io.dim.1) k hr)
        λ xs g. g c hc ∙ ap (λ a. get_elem? d (a * io.dim.0 + r)) (zero_add c),
    view-get_elem? io d (c * io.dim.0) io.dim.0 r e hr,
  )
