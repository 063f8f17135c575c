-- ===== src/Query/Tests.antt =====
-- A stack of two, and a query over two trees.
use monya.Prelude.{ℕ, refl, [], ◌∷◌, Returns, set, take}
use monya.Samples.{nat_scalar}
use monya.IndexVector.{index_val}
use monya.IndexVector.Order.{ordered_insert}
use monya.NnVector
use monya.NnVector.Refinement.{create-Represents}
use monya.Query.{ProximityQuery, eval}
use monya.Query.Eval.{AllRepresent, eval-AllRepresent}

abbrev forest_query : ProximityQuery ℕ
forest_query = record {
  k = 3;
  qsample = record { data_ = [] };
  result = NnVector.create nat_scalar 3 ∷ NnVector.create nat_scalar 3 ∷ [];
}

forest_query-AllRepresent : AllRepresent nat_scalar 3 forest_query.result ([] ∷ [] ∷ [])
unfolding NnVector.create
forest_query-AllRepresent =
    (create-Represents nat_scalar 3, refl, (create-Represents nat_scalar 3, refl, tt))

eval-AllRepresent_example :
    Returns
      (λ u.
        AllRepresent nat_scalar 3 u.result
          (set ([] ∷ [] ∷ []) 1 (take 3 (ordered_insert nat_scalar (index_val 7 2) []))))
      (eval nat_scalar forest_query 7 2 1)
eval-AllRepresent_example =
    eval-AllRepresent nat_scalar forest_query ([] ∷ [] ∷ []) 7 2 1 [] forest_query-AllRepresent refl
