-- ===== src/BruteForce/Few.antt =====
-- The brute-force search over no more than `k` samples.
use mathlib.Core.List.{append-nil, append_assoc}
use monya.Prelude.{
  ℕ, zero, suc, ◌+◌, ◌≤◌, ◌<◌, ◌%◌, ◌^◌, ◌≡◌, refl, sym, ap, ◌∙◌, true, false, List, [], ◌∷◌, ◌++◌,
  arith, length, ok, Returns, Scalar, ltb,
}
use monya.IndexVector.{
  IndexVal, index_val, IndexVector, append, size, trim, copies, sort, Algorithms,
}
use monya.IndexVector
use monya.BruteForce.{BruteForce, round, samples_loop, get_nn}
use monya.BruteForce.Distances.{
  dist_to, distances, IsComplete, row_distance-dist_to, length-distances,
}

module _ {D : Type 0} (s : Scalar D) where
  -- rounds that only append
  samples_loop-few :
      (a : Algorithms D) (b : BruteForce D) (sample : List D) (k n i : ℕ) (nn : IndexVector D)
      → IsComplete s b sample
      → k < 2 ^ 32
      → i + n ≡ b.nsamples
      → b.nsamples ≤ k
      → samples_loop s a b sample k n i nn
        ≡ ok (record nn { items = nn.items ++ distances s b sample n i })
  unfolding samples_loop round append
  samples_loop-few a b sample k zero i nn c word e few =
      ap (λ l. ok (record nn { items = l })) (sym (append-nil nn.items))
  samples_loop-few a b sample k (suc n) i nn c word e few =
      let iv : IndexVal D = index_val i (dist_to s b sample i) in
      let early : ltb i (k % 2 ^ 32) ≡ true = ground (arith, word) in
      rw (row_distance-dist_to s b sample i c (omega arith), early)
        (samples_loop-few a b sample k n (i + 1) (append nn iv) c word (omega arith) few
          ∙ ap (λ l. ok (record nn { items = l }))
              (append_assoc nn.items (iv ∷ []) (distances s b sample n (i + 1))))

  -- With no more samples than neighbours asked for, `getNN` returns them all, in the order of the
  -- matrix: the sort is never reached.
  pub get_nn_few :
      (a : Algorithms D) (blank : IndexVal D) (b : BruteForce D) (sample : List D) (k : ℕ)
      → IsComplete s b sample
      → k < 2 ^ 32
      → b.nsamples ≤ k
      → Returns
          (λ v. (v.items ≡ distances s b sample b.nsamples 0) × (v.sorted ≡ false))
          (get_nn s a blank b sample k)
  unfolding get_nn IndexVector.create size
  get_nn_few a blank b sample k c word few =
      let len : length (distances s b sample b.nsamples 0) ≡ b.nsamples =
        length-distances s b sample b.nsamples 0 in
      let short : ltb (k % 2 ^ 32) (length (distances s b sample b.nsamples 0)) ≡ false =
        ground (arith, word, len, few) in
      rw
        (
          samples_loop-few a b sample k b.nsamples 0 IndexVector.create c word (omega arith) few,
          short,
        )
        (refl, refl)
