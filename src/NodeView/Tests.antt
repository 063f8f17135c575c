-- ===== src/NodeView/Tests.antt =====
-- A node that holds two samples and requests the second column of a matrix.
use monya.Prelude.{ℕ, ◌≡◌, refl, true, false, some, [], ◌∷◌, arith, Returns, ok}
use monya.IndexVector.{index_val}
use monya.MemoryIo.{MemoryIo, row, get_col, gather, read_at}
use monya.NodeView.{NodeView, prep}
use monya.NodeView.Prep.{Filled, prep-Filled}

abbrev pub matrix : MemoryIo ℕ
matrix = record {
  data_ = some (1 ∷ 2 ∷ 3 ∷ 4 ∷ 5 ∷ 6 ∷ []);
  orientation = row;
  dim = (3, 2);
  is_data_local = true;
}

abbrev pub holder : NodeView ℕ
holder = record {
  data_index = record { items = index_val 2 0 ∷ index_val 0 0 ∷ []; sorted = false };
  req_indxs = 1 ∷ [];
  comparator = 0;
  depth = 0;
  ioer = 1;
  parent = 0;
}

fetched : get_col matrix 1 ≡ ok (2 ∷ 4 ∷ 6 ∷ [])
unfolding get_col gather read_at
fetched = refl

prep-Filled_example :
    Returns
      (λ w.
        Filled (2 ∷ 4 ∷ 6 ∷ []) holder.data_index.items w.data_index.items
        × (w ≡ record holder {
          data_index = record holder.data_index { items = w.data_index.items };
        }))
      (prep matrix holder)
prep-Filled_example =
    prep-Filled matrix holder 1 (2 ∷ 4 ∷ 6 ∷ []) refl fetched (omega arith)
      (omega arith, (omega arith, tt))
