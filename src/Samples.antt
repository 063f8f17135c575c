-- ===== src/Samples.antt =====
-- `data_t` instantiated by the native numbers, and the library algorithms by an insertion sort and a
-- linear search: the hypotheses on the parameters can hold, and the definitions run.
use monya.Prelude.{ℕ, ◌+◌, ◌-◌, ◌*◌, refl, List, [], Perm, ltb, ◌==◌, arith, Scalar, IsOrdered}
use mathlib.Core.List.{append-nil}
use monya.IndexVector.{IndexVal, Algorithms}
use monya.IndexVector.Order.{insert_all, insert_all-perm, insert_all-IsSorted}
use monya.IndexVector.Laws.{IsAlgorithms, contains}
use monya.Prelude.{subst}

abbrev pub nat_scalar : Scalar ℕ
nat_scalar = record {
  lt = ltb;
  eq = ◌==◌;
  zero_value = 0;
  max_value = 1_000_000;
  add = ◌+◌;
  sub = ◌-◌;
  mul = ◌*◌;
  sqrt = λ x. x;
}

pub nat-IsOrdered : IsOrdered nat_scalar
nat-IsOrdered = record {
  lt_irrefl = λ a. ground arith;
  lt_trans = λ a b c h k. ground arith;
  lt_weak = λ a b c h. ground arith;
  eq_lt = λ a b. ground arith;
}

abbrev pub nat_algorithms : Algorithms ℕ
nat_algorithms = record {
  sort = insert_all nat_scalar [];
  parallel_sort = insert_all nat_scalar [];
  binary_search = contains nat_scalar;
}

sort-perm : (l : List (IndexVal ℕ)) → Perm (insert_all nat_scalar [] l) l
sort-perm l =
    subst (Perm (insert_all nat_scalar [] l)) (append-nil l) (insert_all-perm nat_scalar [] l)

pub nat_algorithms-IsAlgorithms : IsAlgorithms nat_scalar nat_algorithms
nat_algorithms-IsAlgorithms = record {
  sort_perm = sort-perm;
  sort_sorted = λ l. insert_all-IsSorted nat_scalar nat-IsOrdered [] l tt;
  parallel_sort_perm = sort-perm;
  parallel_sort_sorted = λ l. insert_all-IsSorted nat_scalar nat-IsOrdered [] l tt;
  search = λ l iv h. refl;
}
