-- ===== src/BruteForce/Distances.antt =====
-- The distances of a sample to those of the matrix.
use native.Mathlib.Nat.{mul-le-mul_right, suc-mul}
use monya.Query
use monya.Prelude.{
  ℕ, zero, suc, ◌+◌, ◌*◌, ◌≤◌, ◌<◌, ◌≡◌, refl, ap, List, [], ◌∷◌, ◌++◌, arith, length, length-drop,
  drop, ok, Returns-value, value_or, bind-Returns, Scalar,
}
use monya.IndexVector.{IndexVal, index_val}
use monya.Query.{euclidean}
use monya.Query.Distance.{sum_squares-Returns}
use monya.BruteForce.{BruteForce, row_distance}

module _ {D : Type 0} (s : Scalar D) where
  -- the distance that the code computes
  abbrev pub dist_to : BruteForce D → List D → ℕ → D
  dist_to b sample i = value_or s.max_value (row_distance s b sample i)

  -- the distances to `n` samples from `i` on
  abbrev pub distances : BruteForce D → List D → ℕ → ℕ → List (IndexVal D)
  distances b sample zero i = []
  distances b sample (suc n) i = index_val i (dist_to b sample i) ∷ distances b sample n (i + 1)

  -- the array holds all samples, and the sample has their width
  pub record IsComplete (b : BruteForce D) (sample : List D) : Type 0 where
    pub size : b.nsamples * b.nfeatures ≤ length b.data_
    pub width : b.nfeatures ≤ length sample

  pub row_distance-dist_to :
      (b : BruteForce D) (sample : List D) (i : ℕ)
      → IsComplete b sample
      → i < b.nsamples
      → row_distance s b sample i ≡ ok (dist_to b sample i)
  unfolding row_distance euclidean
  row_distance-dist_to b sample i c h =
      let rows : suc i * b.nfeatures ≤ b.nsamples * b.nfeatures = mul-le-mul_right b.nfeatures h in
      Returns-value s.max_value (row_distance s b sample i) (
        bind-Returns _
          (Query.sum_squares s b.nfeatures sample (drop (i * b.nfeatures) b.data_) s.zero_value) _
          (sum_squares-Returns s b.nfeatures sample (drop (i * b.nfeatures) b.data_) s.zero_value
            c.width
            (omega
              (arith, rows, suc-mul i b.nfeatures, c.size, length-drop (i * b.nfeatures) b.data_)))
          λ _ _. tt)

  pub distances-append :
      (b : BruteForce D) (sample : List D) (m n i j total : ℕ)
      → j ≡ i + m
      → total ≡ m + n
      → distances b sample m i ++ distances b sample n j ≡ distances b sample total i
  distances-append b sample zero n i j total e f =
      let here : j ≡ i = omega arith in let same : total ≡ n = omega arith in rw (here, same) refl
  distances-append b sample (suc m) n i j total e f =
      let left : total ≡ suc (m + n) = omega arith in
      rw left (
        ap (◌∷◌ (index_val i (dist_to b sample i)))
          (distances-append b sample m n (i + 1) j (m + n) (omega arith) refl))

  pub length-distances :
      (b : BruteForce D) (sample : List D) (n i : ℕ) → length (distances b sample n i) ≡ n
  length-distances b sample zero i = refl
  length-distances b sample (suc n) i = ap suc (length-distances b sample n (i + 1))
