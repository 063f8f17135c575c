-- ===== src/Metric/Tests.antt =====
-- Two of three exact values are held; a list of two neighbours against itself.
use monya.Prelude.{
  ℕ, ◌+◌, ◌≡◌, refl, out_of_fuel, true, false, [], ◌∷◌, arith, Perm, Returns, ◌==◌, if◌then◌else◌,
}
use monya.Samples.{nat_scalar, nat_algorithms, nat_algorithms-IsAlgorithms}
use monya.IndexVector.{IndexVector, index_val, size}
use monya.IndexVector.Laws.{FlagHolds}
use monya.Metric.{get_raw_accuracy}
use monya.NnVector.Tests.{near, far, two, two-Represents}
use monya.Metric.Lists
use monya.Metric.Lists.{get_raw_accuracy-Ends}
use monya.Metric.Accuracy.{hits, get_raw_accuracy-hits}

abbrev approx : IndexVector ℕ
approx = record { items = index_val 4 9 ∷ index_val 0 3 ∷ index_val 1 5 ∷ []; sorted = false }

abbrev exact : IndexVector ℕ
exact = record { items = index_val 2 3 ∷ index_val 7 4 ∷ index_val 1 5 ∷ []; sorted = true }

approx-FlagHolds : FlagHolds nat_scalar approx
approx-FlagHolds = λ e. absurd (ground (arith, e))

get_raw_accuracy-hits_example :
    Returns
      (λ (w, r).
        (r ≡ (
          if hits nat_scalar approx.items exact.items == 0
          then 0
          else (hits nat_scalar approx.items exact.items + size exact)))
        × Perm w.items approx.items)
      (get_raw_accuracy nat_scalar nat_algorithms ◌+◌ approx exact)
unfolding size
get_raw_accuracy-hits_example =
    get_raw_accuracy-hits nat_scalar nat_algorithms nat_algorithms-IsAlgorithms exact ◌+◌ approx
      refl approx-FlagHolds

get_raw_accuracy-Ends_example : Lists.get_raw_accuracy nat_scalar ◌+◌ 100 two two ≡ out_of_fuel
get_raw_accuracy-Ends_example =
    get_raw_accuracy-Ends nat_scalar ◌+◌ 99 two two near (far ∷ []) (near ∷ far ∷ []) two-Represents
      two-Represents refl (omega arith)
