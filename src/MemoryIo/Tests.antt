-- ===== src/MemoryIo/Tests.antt =====
-- A matrix of two rows and three columns.
use monya.Prelude.{ℕ, ◌≡◌, refl, true, some, [], ◌∷◌, arith, ok, ◌>>=◌, Returns, get_elem?}
use monya.MemoryIo.{MemoryIo, row, read_at, gather, get_row, get_col, transpose_cols, transpose}
use monya.MemoryIo.Access.{position, get_row-get_col}
use monya.MemoryIo.Transpose.{transpose-transpose}

abbrev two_by_three : MemoryIo ℕ
two_by_three = record {
  data_ = some (1 ∷ 2 ∷ 3 ∷ 4 ∷ 5 ∷ 6 ∷ []);
  orientation = row;
  dim = (2, 3);
  is_data_local = true;
}

get_row-get_col_example :
    Returns
      (λ xs.
        get_elem? xs 2 ≡ get_elem? (1 ∷ 2 ∷ 3 ∷ 4 ∷ 5 ∷ 6 ∷ []) (position two_by_three true 1 2))
      (get_row two_by_three 1)
    × Returns
        (λ ys.
          get_elem? ys 1 ≡ get_elem? (1 ∷ 2 ∷ 3 ∷ 4 ∷ 5 ∷ 6 ∷ []) (position two_by_three true 1 2))
        (get_col two_by_three 2)
get_row-get_col_example =
    get_row-get_col two_by_three (1 ∷ 2 ∷ 3 ∷ 4 ∷ 5 ∷ 6 ∷ []) true 1 2 refl refl refl (omega arith)
      (omega arith)

transpose-transpose_example :
    Returns
      (λ w. w ≡ two_by_three)
      (transpose two_by_three (0 ∷ 0 ∷ 0 ∷ 0 ∷ 0 ∷ 0 ∷ []) >>= λ v.
        transpose v (9 ∷ 9 ∷ 9 ∷ 9 ∷ 9 ∷ 9 ∷ []))
transpose-transpose_example =
    transpose-transpose two_by_three (1 ∷ 2 ∷ 3 ∷ 4 ∷ 5 ∷ 6 ∷ []) (0 ∷ 0 ∷ 0 ∷ 0 ∷ 0 ∷ 0 ∷ [])
      (9 ∷ 9 ∷ 9 ∷ 9 ∷ 9 ∷ 9 ∷ []) true refl refl refl refl refl

-- A row that `get_row` reads after one `transpose` is neither a row nor a column of the matrix.
transposed_row :
    (transpose two_by_three (0 ∷ 0 ∷ 0 ∷ 0 ∷ 0 ∷ 0 ∷ []) >>= λ v. get_row v 0) ≡ ok (1 ∷ 5 ∷ [])
unfolding transpose transpose_cols read_at gather get_row
transposed_row = refl
