-- ===== src/IndexVector/Tests.antt =====
-- `IndexVector` at concrete values.
use monya.Prelude.{ℕ, ◌+◌, ◌-◌, ◌/◌, ◌≡◌, refl, true, false, [], ◌∷◌, Perm, arith, Returns}
use monya.Samples.{nat_scalar, nat_algorithms, nat_algorithms-IsAlgorithms}
use monya.IndexVector.{index_val, IndexVector, find, append, resize, size}
use monya.IndexVector.Order.{IsSorted}
use monya.IndexVector.Laws.{contains, find-contains, append_stale_flag, resize_adds_half}

abbrev unsorted : IndexVector ℕ
unsorted = record { items = index_val 0 7 ∷ index_val 1 4 ∷ []; sorted = false }

abbrev in_order : IndexVector ℕ
in_order = record { items = index_val 0 4 ∷ index_val 1 7 ∷ []; sorted = true }

find-contains_example :
    ((find nat_algorithms unsorted (index_val 9 4)).1
      ≡ contains nat_scalar unsorted.items (index_val 9 4))
    × Perm (find nat_algorithms unsorted (index_val 9 4)).0.items unsorted.items
    × IsSorted nat_scalar (find nat_algorithms unsorted (index_val 9 4)).0.items
    × ((find nat_algorithms unsorted (index_val 9 4)).0.sorted ≡ true)
find-contains_example =
    find-contains nat_scalar nat_algorithms unsorted (index_val 9 4) nat_algorithms-IsAlgorithms
      λ e. cc

append_stale_flag_example :
    ((append in_order (index_val 2 1)).sorted ≡ true)
    × ¬ IsSorted nat_scalar (append in_order (index_val 2 1)).items
append_stale_flag_example =
    append_stale_flag nat_scalar in_order (index_val 0 4) (index_val 2 1) (index_val 1 7 ∷ []) refl
      refl refl

resize_adds_half_example :
    Returns
      (λ w. size w ≡ size unsorted + (9 - size unsorted + 1) / 2)
      (resize nat_scalar unsorted 9)
resize_adds_half_example = resize_adds_half nat_scalar unsorted 9 (unfold size in omega arith)
