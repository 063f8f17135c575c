-- ===== src/MemoryIo/Transpose.antt =====
-- `transpose` of `MemoryIO`, entry by entry, and what a second call gives.
use native.Mathlib.Nat.{
  div-add-mod', div-eq_of_lt, div-lt_iff_lt-mul, eq-or-lt_of_le, mod-lt, mul-add-div_right,
  mul_comm, suc-mul,
}
use monya.Prelude.{
  Bool, true, false, if◌then◌else◌, ℕ, zero, suc, ◌+◌, ◌*◌, ◌/◌, ◌%◌, ◌<◌, ◌≤◌, ◌≡◌, inl, inr, refl,
  sym, ap, subst, ◌∙◌, some, List, arith, Returns, Returns-mono, bind-Returns, ◌>>=◌, length,
  get_elem?, set, get_elem?-in_range, get_elem?-set, get_elem?-set_other, get_elem?-injective,
  length-set,
}
use monya.MemoryIo.{MatOrient, MemoryIo, row, col, transpose_cols, transpose_rows, transpose}
use monya.MemoryIo.Access.{in_range, read_at_lem}

row_of_position : (n a x : ℕ) → x < n → (a * n + x) / n ≡ a
row_of_position n a x h =
    mul-add-div_right (omega arith) a x ∙ ap (◌+◌ a) (div-eq_of_lt h) ∙ omega arith

position-injective : (n a b x y : ℕ) → x < n → y < n → a * n + x ≡ b * n + y → (a ≡ b) × (x ≡ y)
position-injective n a b x y h k e =
    let rows : a ≡ b =
      sym (row_of_position n a x h) ∙ ap (λ p. p / n) e ∙ row_of_position n b y k in
    (rows, omega (arith, e, ap (λ c. c * n) rows))

before_or_here : (i j r c m : ℕ) → i * m + j < suc (r * m + c) → i * m + j ≤ r * m + c
before_or_here i j r c m h = omega (arith, h)

end_of_row : (r c m : ℕ) → c + 0 ≡ m → r * m + c ≡ suc r * m
end_of_row r c m h = omega (arith, h, suc-mul r m)

next_col : (r c m : ℕ) → suc (r * m + c) ≡ r * m + (c + 1)
next_col r c m = omega arith

positive : (i n m : ℕ) → i < n * m → 0 < m
positive i n zero h = absurd (omega (arith, h, mul_comm n 0))
positive i n (suc m) h = omega arith

turned_back :
    (by_row : Bool) (o p q : MatOrient)
    → o ≡ (if by_row then row else col)
    → p ≡ elim o [ row ↦ col | _ ↦ row ]
    → q ≡ elim p [ row ↦ col | _ ↦ row ]
    → q ≡ o
turned_back true o p q e f g = simp (g, f, e)
turned_back false o p q e f g = simp (g, f, e)

module _ {D : Type 0} where
  -- the entries before the `k`-th of the old array, by rows of `m`, stand in the new one by rows of `n`
  record IsMoved (d : List D) (n m k : ℕ) (t : List D) : Type 0 where
    pub size : length t ≡ length d
    pub moved :
        (r c : ℕ)
        → r < n
        → c < m
        → r * m + c < k
        → get_elem? t (c * n + r) ≡ get_elem? d (r * m + c)

  IsMoved-set :
      (d t : List D) (n m r c : ℕ) (x : D)
      → length d ≡ n * m
      → r < n
      → c < m
      → get_elem? d (r * m + c) ≡ some x
      → IsMoved d n m (r * m + c) t
      → IsMoved d n m (suc (r * m + c)) (set t (c * n + r) x)
  IsMoved-set d t n m r c x len hr hc e before = record {
    size = length-set t (c * n + r) x ∙ before.size;
    moved = λ i j hi hj h. elim (eq-or-lt_of_le (before_or_here i j r c m h)) [
      | inr earlier ↦
          get_elem?-set_other t (c * n + r) (j * n + i) x (λ same.
            let (cols, rows) = position-injective n c j r i hr hi same in
            let on : r * m + c ≡ i * m + j = ap (λ a. a * m + c) rows ∙ ap (λ b. i * m + b) cols in
            omega (arith, earlier, on))
          ∙ before.moved i j hi hj earlier
      | inl here ↦
          let (rows, cols) = position-injective m i r j c hj hc here in
          let written : c * n + r < length t =
            rw (before.size, len, mul_comm n m) (in_range c r m n hc hr) in
          let (y, f) = get_elem?-in_range t (c * n + r) written in
          ap (get_elem? (set t (c * n + r) x)) (ap (λ b. b * n + i) cols ∙ ap (λ a. c * n + a) rows)
          ∙ get_elem?-set t (c * n + r) y x f
          ∙ sym e
          ∙ ap (get_elem? d) (sym here)
    ];
  }

  transpose_cols-IsMoved :
      (io : MemoryIo D) (d t : List D) (r k c : ℕ)
      → io.data_ ≡ some d
      → length d ≡ io.dim.0 * io.dim.1
      → r < io.dim.0
      → c + k ≡ io.dim.1
      → IsMoved d io.dim.0 io.dim.1 (r * io.dim.1 + c) t
      → Returns (IsMoved d io.dim.0 io.dim.1 (suc r * io.dim.1)) (transpose_cols io r k c t)
  unfolding transpose_cols
  transpose_cols-IsMoved io d t r zero c e len hr all before =
      subst (λ k. IsMoved d io.dim.0 io.dim.1 k t) (end_of_row r c io.dim.1 all) before
  transpose_cols-IsMoved io d t r (suc k) c e len hr all before =
      let inside : r * io.dim.1 + c < length d =
        rw len (in_range r c io.dim.0 io.dim.1 hr (omega arith)) in
      let (x, f) = get_elem?-in_range d (r * io.dim.1 + c) inside in
      rw (read_at_lem io d (r * io.dim.1 + c) x e f) (
        transpose_cols-IsMoved io d (set t (c * io.dim.0 + r) x) r k (c + 1) e len hr (omega arith)
          (subst (λ k. IsMoved d io.dim.0 io.dim.1 k (set t (c * io.dim.0 + r) x))
            (next_col r c io.dim.1)
            (IsMoved-set d t io.dim.0 io.dim.1 r c x len hr (omega arith) f before)))

  transpose_rows-IsMoved :
      (io : MemoryIo D) (d t : List D) (k r : ℕ)
      → io.data_ ≡ some d
      → length d ≡ io.dim.0 * io.dim.1
      → r + k ≡ io.dim.0
      → IsMoved d io.dim.0 io.dim.1 (r * io.dim.1) t
      → Returns (IsMoved d io.dim.0 io.dim.1 (io.dim.0 * io.dim.1)) (transpose_rows io k r t)
  unfolding transpose_rows
  transpose_rows-IsMoved io d t zero r e len all before =
      subst (λ a. IsMoved d io.dim.0 io.dim.1 (a * io.dim.1) t) (omega arith) before
  transpose_rows-IsMoved io d t (suc k) r e len all before =
      bind-Returns _ (transpose_cols io r io.dim.1 0 t) _
        (transpose_cols-IsMoved io d t r io.dim.1 0 e len (omega arith) (omega arith)
          (subst (λ a. IsMoved d io.dim.0 io.dim.1 a t) (omega arith) before))
        λ u moved.
          transpose_rows-IsMoved io d u k (r + 1) e len (omega arith)
            (subst (λ a. IsMoved d io.dim.0 io.dim.1 (a * io.dim.1) u) (omega arith) moved)

  -- what one call makes of a matrix
  record IsTransposed (io : MemoryIo D) (d : List D) (u : MemoryIo D) : Type 0 where
    pub new_data : List D
    pub at : u.data_ ≡ some new_data
    pub size : length new_data ≡ length d
    pub entries :
        (r c : ℕ)
        → r < io.dim.0
        → c < io.dim.1
        → get_elem? new_data (c * io.dim.0 + r) ≡ get_elem? d (r * io.dim.1 + c)
    pub swapped : u.dim ≡ (io.dim.1, io.dim.0)
    pub turned : u.orientation ≡ elim io.orientation [ row ↦ col | _ ↦ row ]
    pub local : u.is_data_local ≡ io.is_data_local

  transpose-IsTransposed :
      (io : MemoryIo D) (d tmp : List D)
      → io.data_ ≡ some d
      → length d ≡ io.dim.0 * io.dim.1
      → length tmp ≡ length d
      → Returns (IsTransposed io d) (transpose io tmp)
  unfolding transpose
  transpose-IsTransposed io d tmp e len size =
      bind-Returns _ (transpose_rows io io.dim.0 0 tmp) _
        (transpose_rows-IsMoved io d tmp io.dim.0 0 e len (omega arith)
          record { size = size; moved = λ r c hr hc h. absurd (omega arith) })
        λ t all. record {
          new_data = t;
          at = refl;
          size = all.size;
          entries = λ r c hr hc. all.moved r c hr hc (in_range r c io.dim.0 io.dim.1 hr hc);
          swapped = refl;
          turned = refl;
          local = refl;
        }

  moved_back :
      (d t u : List D) (n m : ℕ)
      → length d ≡ n * m
      → ((r c : ℕ) → r < n → c < m → get_elem? t (c * n + r) ≡ get_elem? d (r * m + c))
      → length u ≡ length d
      → ((r c : ℕ) → r < m → c < n → get_elem? u (c * m + r) ≡ get_elem? t (r * n + c))
      → u ≡ d
  moved_back d t u n m len there size back = get_elem?-injective u d size λ i h.
      let bound : i < n * m = omega (arith, h, size, len) in
      let width : 0 < m = positive i n m bound in
      let hc : i / m < n = (div-lt_iff_lt-mul width).1 bound in
      let on : i / m * m + i % m ≡ i = div-add-mod' i m in
      ap (get_elem? u) (sym on)
      ∙ back (i % m) (i / m) (mod-lt i width) hc
      ∙ there (i / m) (i % m) hc (mod-lt i width)
      ∙ ap (get_elem? d) on

  same_matrix :
      (io w : MemoryIo D)
      → w.data_ ≡ io.data_
      → w.orientation ≡ io.orientation
      → w.dim ≡ io.dim
      → w.is_data_local ≡ io.is_data_local
      → w ≡ io
  same_matrix io w e o s l =
      λ i. record { data_ = e i; orientation = o i; dim = s i; is_data_local = l i }

  -- Transposing a matrix stored by rows or by columns twice returns, and gives back the same matrix:
  -- its data, its orientation and its shape, whatever the two new arrays hold before.
  pub transpose-transpose :
      (io : MemoryIo D) (d tmp tmp2 : List D) (by_row : Bool)
      → io.data_ ≡ some d
      → io.orientation ≡ (if by_row then row else col)
      → length d ≡ io.dim.0 * io.dim.1
      → length tmp ≡ length d
      → length tmp2 ≡ length d
      → Returns (λ w. w ≡ io) (transpose io tmp >>= λ v. transpose v tmp2)
  transpose-transpose io d tmp tmp2 by_row e o len size size2 =
      bind-Returns _ (transpose io tmp) _ (transpose-IsTransposed io d tmp e len size) λ v once.
        let len2 : length once.new_data ≡ v.dim.0 * v.dim.1 =
          rw once.swapped (once.size ∙ len ∙ mul_comm io.dim.0 io.dim.1) in
        Returns-mono _ (transpose v tmp2)
          (transpose-IsTransposed v once.new_data tmp2 once.at len2 (size2 ∙ sym once.size))
          λ w twice.
            let back : twice.new_data ≡ d =
              moved_back d once.new_data twice.new_data io.dim.0 io.dim.1 len once.entries
                (twice.size ∙ once.size)
                (subst
                  (λ (s : ℕ × ℕ).
                    (r c : ℕ)
                    → r < s.0
                    → c < s.1
                    → get_elem? twice.new_data (c * s.0 + r)
                      ≡ get_elem? once.new_data (r * s.1 + c))
                  once.swapped twice.entries) in
            same_matrix io w (twice.at ∙ ap some back ∙ sym e)
              (turned_back by_row io.orientation v.orientation w.orientation o once.turned
                twice.turned)
              (twice.swapped ∙ ap (λ (s : ℕ × ℕ). (s.1, s.0)) once.swapped)
              (twice.local ∙ once.local)
