-- ===== src/KdTree/Traversal/Tests.antt =====
-- Three samples of two dimensions in the leaves of a root, and a query for the nearest two.
use monya.Prelude.{
  ℕ, refl, true, false, ◌==◌, if◌then◌else◌, List, [], ◌∷◌, some, arith, Returns, ◌||◌,
}
use monya.Samples.{nat_scalar, nat-IsOrdered}
use monya.IndexVector.{index_val}
use monya.MemoryIo.{MemoryIo, row}
use monya.NnVector
use monya.NnVector.Refinement.{create-Represents}
use monya.Query.{ProximityQuery}
use monya.Query.Eval.{AllRepresent}
use monya.KdTree.Traversal.{KdMem, find_neighbors}
use monya.KdTree.Traversal.FullTree.{FullTree, tip, fork}
use monya.KdTree.Traversal.Nearest.{IsSearchable, IsNearest, find_neighbors-IsNearest}

abbrev pub points : List ℕ
points = 1 ∷ 2 ∷ 8 ∷ 1 ∷ 4 ∷ 6 ∷ []

abbrev pub matrix : MemoryIo ℕ
matrix = record { data_ = some points; orientation = row; dim = (3, 2); is_data_local = true }

abbrev pub small_tree : FullTree ℕ
small_tree = fork (tip 2 2) 1 4 (tip 3 1)

abbrev pub small_mem : KdMem ℕ
small_mem = record {
  links = record {
    live = λ p. (p == 1) || ((p == 2) || (p == 3));
    comparator = λ p. if p == 1 then 4 else if p == 2 then 2 else 1;
    parent = λ p. if p == 1 then 0 else 1;
    left = λ p. if p == 1 then 2 else 0;
    right = λ p. if p == 1 then 3 else 0;
    color = λ p. 0;
  };
  split_dim = λ p. if p == 1 then 0 else 1;
  data_index = λ p.
      if p == 2
      then record { items = index_val 0 2 ∷ []; sorted = false }
      else record { items = index_val 2 6 ∷ index_val 1 1 ∷ []; sorted = false };
}

abbrev pub near_query : ProximityQuery ℕ
near_query = record {
  k = 2;
  qsample = record { data_ = 5 ∷ 5 ∷ [] };
  result = NnVector.create nat_scalar 2 ∷ [];
}

pub near_query-AllRepresent : AllRepresent nat_scalar 2 near_query.result ([] ∷ [])
unfolding NnVector.create
near_query-AllRepresent = (create-Represents nat_scalar 2, refl, tt)

pub small_tree-IsSearchable :
    IsSearchable nat_scalar matrix points true small_mem small_tree near_query.qsample.data_
small_tree-IsSearchable = record {
  stored = record { data_ = refl; orientation = refl; size = refl };
  some_dim = omega arith;
  width = refl;
  parent = 0;
  shape = (
    refl,
    omega arith,
    refl,
    refl,
    refl,
    (refl, omega arith, refl, refl, refl, refl, refl),
    (refl, omega arith, refl, refl, refl, refl, refl),
  );
  distinct = (
    refl,
    refl,
    λ a h. ground arith,
    (refl, refl, λ a h. refl, tt, tt),
    (refl, refl, λ a h. refl, tt, tt),
  );
  dims = (omega arith, omega arith, omega arith);
  rows = ((omega arith, tt), (omega arith, (omega arith, tt)));
}

find_neighbors-IsNearest_example :
    Returns
      (IsNearest nat_scalar matrix small_mem small_tree near_query ([] ∷ []) 0)
      (find_neighbors nat_scalar 4 matrix small_mem 0 1 near_query)
find_neighbors-IsNearest_example =
    find_neighbors-IsNearest nat_scalar nat-IsOrdered matrix points true small_mem small_tree
      near_query ([] ∷ []) 0 4 small_tree-IsSearchable near_query-AllRepresent refl (omega arith)
