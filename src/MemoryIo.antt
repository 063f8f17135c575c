-- ===== src/MemoryIo.antt =====
-- `MemoryIO` of src/io/IO.hpp with the parts of `IO` that it inherits: a matrix as one array. `data`
-- is none where the pointer is NULL. A returned `data_t*` is the list of the entries that it is read
-- for. Of the file operations it has
-- `from_file`, with the file's contents as an argument.
pub mod Access
pub mod Tests
pub mod Transpose
use monya.Prelude.{
  ℕ, zero, suc, ◌+◌, ◌*◌, Bool, true, false, ◌&&◌, Option, none, some, List, [], ◌∷◌, Run, ok,
  throw, fault, not_implemented_exception, ◌>>=◌, ◌==◌, if◌then◌else◌, length, get_elem?, set, take,
  drop,
}

-- `mat_orient_t`
pub data MatOrient : Type 0 where
  row col band invalid : MatOrient

pub record MemoryIo (D : Type 0) : Type 0 where
  pub data_ : Option (List D)
  pub orientation : MatOrient
  pub dim : ℕ × ℕ
  pub is_data_local : Bool

module _ {D : Type 0} where
  -- `MemoryIO()`
  unfoldable pub create : MemoryIo D
  create = record { data_ = none; orientation = invalid; dim = (0, 0); is_data_local = false }

  -- `MemoryIO(data, dim, orient)`; `is_data_local`, which it leaves unset, is an argument.
  pub create_with : Bool → List D → ℕ × ℕ → MatOrient → MemoryIo D
  create_with b d dim orient = record {
    data_ = some d;
    orientation = orient;
    dim = dim;
    is_data_local = b;
  }

  -- `set_orientation`, `shape` and `set_data` write only what has not been set.
  unfoldable pub set_orientation : MemoryIo D → MatOrient → MemoryIo D
  set_orientation io orient = record io {
    orientation = elim io.orientation [ invalid ↦ orient | o ↦ o ];
  }

  unfoldable pub shape : MemoryIo D → ℕ × ℕ → MemoryIo D
  shape io dim = record io { dim = if (io.dim.0 == 0) && (io.dim.1 == 0) then dim else io.dim }

  pub set_data : MemoryIo D → List D → MemoryIo D
  set_data io d = record io { data_ = elim io.data_ [ none ↦ some d | some e ↦ some e ] }

  -- `from_file`, where `file` is what the new array holds after it has been read from the file, or the
  -- exception of a file that does not open
  unfoldable pub from_file : Run (List D) → MemoryIo D → Run (MemoryIo D)
  from_file file io = elim io.data_ [
    | none ↦ do d ← file; ok (record io { data_ = some d; is_data_local = true })
    | some d ↦ ok io
  ]

  abbrev pub in_bounds : Option D → Run D
  in_bounds none = fault
  in_bounds (some x) = ok x

  abbrev pub deref : Option (List D) → Run (List D)
  deref none = fault
  deref (some d) = ok d

  -- `data[i]`
  unfoldable pub read_at : MemoryIo D → ℕ → Run D
  read_at io i = do d ← deref io.data_; in_bounds (get_elem? d i)

  -- `for (i = from; …) tmp[i] = data[i * stride + offset]`, `n` times
  unfoldable pub gather : MemoryIo D → ℕ → ℕ → ℕ → ℕ → Run (List D)
  gather io zero from stride offset = ok []
  gather io (suc n) from stride offset = do
    x ← read_at io (from * stride + offset)
    xs ← gather io n (from + 1) stride offset
    ok (x ∷ xs)

  -- `&data[start]`, read for `n` entries: fewer where the array ends before
  unfoldable pub view : MemoryIo D → ℕ → ℕ → Run (List D)
  view io start n = do d ← deref io.data_; ok (take n (drop start d))

  -- `get_col`, by the orientation
  abbrev pub col_of : MatOrient → MemoryIo D → ℕ → Run (List D)
  col_of col io offset = view io (offset * io.dim.0) io.dim.0
  col_of row io offset = gather io io.dim.0 0 io.dim.1 offset
  col_of band io offset = throw not_implemented_exception
  col_of invalid io offset = throw not_implemented_exception

  unfoldable pub get_col : MemoryIo D → ℕ → Run (List D)
  get_col io offset = col_of io.orientation io offset

  -- `get_row`, by the orientation
  abbrev pub row_of : MatOrient → MemoryIo D → ℕ → Run (List D)
  row_of row io offset = view io (offset * io.dim.1) io.dim.1
  row_of col io offset = gather io io.dim.1 0 io.dim.0 offset
  row_of band io offset = throw not_implemented_exception
  row_of invalid io offset = throw not_implemented_exception

  unfoldable pub get_row : MemoryIo D → ℕ → Run (List D)
  get_row io offset = row_of io.orientation io offset

  -- the inner loop of `transpose`: `n` columns from `c` on, of row `r`
  unfoldable pub transpose_cols : MemoryIo D → ℕ → ℕ → ℕ → List D → Run (List D)
  transpose_cols io r zero c tmp = ok tmp
  transpose_cols io r (suc n) c tmp = do
    x ← read_at io (r * io.dim.1 + c)
    transpose_cols io r n (c + 1) (set tmp (c * io.dim.0 + r) x)

  -- the outer loop: `n` rows from `r` on
  unfoldable pub transpose_rows : MemoryIo D → ℕ → ℕ → List D → Run (List D)
  transpose_rows io zero r tmp = ok tmp
  transpose_rows io (suc n) r tmp = do
    tmp ← transpose_cols io r io.dim.1 0 tmp
    transpose_rows io n (r + 1) tmp

  -- `transpose`, with what the new array holds before it is written. Both branches run the same loop.
  pub transpose : MemoryIo D → List D → Run (MemoryIo D)
  unfolding transpose_rows
  transpose io tmp = do
    tmp ← transpose_rows io io.dim.0 0 tmp
    ok (record io {
      data_ = some tmp;
      orientation = elim io.orientation [ row ↦ col | _ ↦ row ];
      dim = (io.dim.1, io.dim.0);
    })

  -- `destroy`
  pub destroy : MemoryIo D → MemoryIo D
  destroy io = record io { data_ = if io.is_data_local then none else io.data_ }
