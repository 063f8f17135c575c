-- ===== src/NnVector/Tests.antt =====
-- `NNVector` at concrete values: a vector of two neighbours.
use monya.Prelude.{
  ℕ, ◌≡◌, refl, true, false, some, List, [], ◌∷◌, Perm, arith, ok, throw, out_of_fuel,
  runtime_error, Returns, get_elem?, take, inr, if◌then◌else◌, update, null,
}
use monya.Samples.{nat_scalar, nat-IsOrdered}
use monya.IndexVector.{IndexVal, index_val, val_eq}
use monya.IndexVector.Order.{IsSorted, ordered_insert}
use monya.NnVector.{Mem, NnVector, create, eval}
use monya.NnVector.Reads.{at, find, to_index_vector, equals}
use monya.NnVector.Refinement.{Represents, eval-Represents, eval_all, eval_all-nearest}
use monya.NnVector.Access.{at-get_elem?, at_out_of_range}
use monya.NnVector.Walks.{
  to_index_vector_diverges, find_first_only, same_values, Compared, equals-same_values,
}

abbrev pub near : IndexVal ℕ
near = index_val 8 3

abbrev pub far : IndexVal ℕ
far = index_val 9 6

-- the sentinel at 1, the neighbours at 2 and 3
abbrev two_nodes : Mem ℕ
two_nodes = record {
  live = update (update (update (λ p. false) 1 true) 2 true) 3 true;
  prev = update (update (update (λ p. null) 1 3) 2 1) 3 2;
  next = update (update (update (λ p. null) 1 2) 2 3) 3 1;
  value = update (update (λ p. index_val 0 1_000_000) 2 near) 3 far;
  fresh = 4;
}

abbrev pub two : NnVector ℕ
two = record { mem = two_nodes; sentinel = 1; cache_index = 0; cache_node = 2; k = 2; size = 2 }

pub two-Represents : Represents two (near ∷ far ∷ [])
two-Represents = record {
  cells = (2, near) ∷ (3, far) ∷ [];
  holds = record {
    chain = (refl, refl, refl, refl, (refl, refl, refl, refl, (refl, refl)));
    distinct = (refl, (refl, tt));
    apart = refl;
    given = (omega arith, omega arith, (omega arith, omega arith, tt));
    sentinel_pos = omega arith;
    sentinel_given = omega arith;
    sentinel_live = refl;
    count = refl;
  };
  contents = refl;
  small = omega arith;
  cached = inr refl;
}

eval_all-nearest_example :
    Returns
      (λ w.
        (all : List (IndexVal ℕ)) × Represents w (take 2 all)
        × IsSorted nat_scalar all
        × Perm all (far ∷ near ∷ index_val 7 5 ∷ []))
      (eval_all nat_scalar (create nat_scalar 2) (far ∷ near ∷ index_val 7 5 ∷ []))
eval_all-nearest_example =
    eval_all-nearest nat_scalar nat-IsOrdered 2 (far ∷ near ∷ index_val 7 5 ∷ [])

eval-Represents_example :
    Returns
      (λ w.
        Represents w (take 2 (ordered_insert nat_scalar (index_val 7 5) (near ∷ far ∷ [])))
        × (w.k ≡ 2))
      (eval nat_scalar two (index_val 7 5))
eval-Represents_example =
    eval-Represents nat_scalar two (index_val 7 5) (near ∷ far ∷ []) two-Represents

at-get_elem?_example :
    Returns
      (λ (w, x). Represents w (near ∷ far ∷ []) × (get_elem? (near ∷ far ∷ []) 1 ≡ some x))
      (at two 1)
at-get_elem?_example =
    at-get_elem? two (near ∷ far ∷ []) 1 two-Represents (omega arith) (omega arith)

at_out_of_range_example : at two 2 ≡ throw runtime_error
at_out_of_range_example =
    at_out_of_range two (near ∷ far ∷ []) 2 two-Represents (omega arith) (omega arith)

to_index_vector_diverges_example : to_index_vector 100 two ≡ out_of_fuel
to_index_vector_diverges_example = to_index_vector_diverges 100 two near (far ∷ []) two-Represents

find_first_only_example :
    find nat_scalar 100 two far ≡ (if val_eq nat_scalar near far then ok true else out_of_fuel)
find_first_only_example = find_first_only nat_scalar 99 two far near (far ∷ []) two-Represents

equals-same_values_example :
    Returns
      (Compared nat_scalar
        (near ∷ far ∷ [])
        (near ∷ far ∷ [])
        (same_values nat_scalar (near ∷ far ∷ []) (near ∷ far ∷ [])))
      (equals nat_scalar two two)
equals-same_values_example =
    equals-same_values nat_scalar two two (near ∷ far ∷ []) (near ∷ far ∷ []) two-Represents
      two-Represents (omega arith) (omega arith)
