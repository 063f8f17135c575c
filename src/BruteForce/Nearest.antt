-- ===== src/BruteForce/Nearest.antt =====
-- The brute-force search over more than `k` samples gives the nearest `k`, sorted.
use mathlib.Core.List.Perm
use mathlib.Core.List.Permᴰ
use mathlib.Core.List.{append-nil, append_assoc}
use monya.Prelude.{
  length-perm, ℕ, zero, suc, ◌+◌, ◌-◌, ◌≤◌, ◌<◌, ◌%◌, ◌^◌, ◌==◌, ◌≡◌, refl, sym, ap, subst, ◌∙◌,
  inl, inr, true, false, List, [], ◌∷◌, ◌++◌, arith, Bool-cases, if◌then◌else◌, length,
  length-append, take-length, take, Returns, Returns-mono, bind-Returns, Scalar, IsOrdered, ltb,
  Perm,
}
use monya.IndexVector.{
  IndexVal, index_val, IndexVector, append, size, trim, copies, sort, Algorithms,
}
use monya.IndexVector
use monya.IndexVector.Order.{
  ordered_insert, insert_all, kept, kept-take, IsSorted, insert_all-IsSorted, insert_all-perm,
}
use monya.IndexVector.Laws.{IsAlgorithms}
use monya.BruteForce.{BruteForce, replace, round, samples_loop, get_nn}
use monya.BruteForce.Distances.{
  dist_to, distances, IsComplete, row_distance-dist_to, distances-append,
}
use monya.BruteForce.Replace.{replace-ordered_insert}

module _ {D : Type 0} (s : Scalar D) where
  -- Only the first `k` items matter to what comes after.
  take-insert_all :
      (k : ℕ) (xs ys zs : List (IndexVal D))
      → take k xs ≡ take k ys
      → take k (insert_all s xs zs) ≡ take k (insert_all s ys zs)
  take-insert_all k xs ys zs e =
      sym (kept-take s k xs zs) ∙ ap (λ l. kept s k l zs) e ∙ kept-take s k ys zs

  module _ (a : Algorithms D) (b : BruteForce D) (sample : List D) (c : IsComplete s b sample)
      (k : ℕ) (word : k < 2 ^ 31) where
    -- the samples after the first `k + 1`
    samples_loop-after :
        (n i : ℕ) (nn : IndexVector D)
        → k < i
        → i + n ≡ b.nsamples
        → k ≤ length nn.items
        → Returns
            (λ v.
              (take k v.items ≡ take k (insert_all s nn.items (distances s b sample n i)))
              × (k ≤ length v.items))
            (samples_loop s a b sample k n i nn)
    unfolding samples_loop insert_all round
    samples_loop-after zero i nn h e len = (refl, len)
    samples_loop-after (suc n) i nn h e len =
        let iv : IndexVal D = index_val i (dist_to s b sample i) in
        let late : ltb i (k % 2 ^ 32) ≡ false = ground (arith, word) in
        let later : (i == k % 2 ^ 32) ≡ false = ground (arith, word) in
        rw (row_distance-dist_to s b sample i c (omega arith), late, later)
          (bind-Returns _ (replace s k nn i (dist_to s b sample i)) _
            (replace-ordered_insert s k nn i (dist_to s b sample i) word len)
            λ v (same, longer).
              Returns-mono _ (samples_loop s a b sample k n (i + 1) v)
                (samples_loop-after n (i + 1) v (omega arith) (omega arith) longer)
                λ u (f, g). (
                  f
                      ∙ take-insert_all k v.items (ordered_insert s iv nn.items)
                          (distances s b sample n (i + 1)) same,
                  g,
                ))

    -- `nn`, sorted once the first `k` samples are in, with the others inserted
    abbrev target : ℕ → ℕ → ℕ → IndexVector D → List (IndexVal D)
    target m r i nn =
        insert_all s (a.sort (nn.items ++ distances s b sample m i))
          (distances s b sample (suc r) k)

    abbrev IsFirst : List (IndexVal D) → IndexVector D → Type 0
    IsFirst l v = (take k v.items ≡ take k l) × (k ≤ length v.items)

    module _ (laws : IsAlgorithms s a) where
      -- the round that sorts, and those after it
      samples_loop-sorts :
          (r : ℕ) (nn : IndexVector D)
          → k + suc r ≡ b.nsamples
          → length nn.items ≡ k
          → Returns (IsFirst (target 0 r k nn)) (samples_loop s a b sample k (suc r) k nn)
      unfolding samples_loop insert_all round sort
      samples_loop-sorts r nn e len =
          let iv : IndexVal D = index_val k (dist_to s b sample k) in
          let late : ltb k (k % 2 ^ 32) ≡ false = ground (arith, word) in
          let now : (k == k % 2 ^ 32) ≡ true = ground (arith, word) in
          let all_in : nn.items ++ [] ≡ nn.items = append-nil nn.items in
          let sorted_len = length-perm (a.sort nn.items) nn.items (laws.sort_perm nn.items) in
          rw (row_distance-dist_to s b sample k c (omega arith), late, now, all_in)
            (bind-Returns _ (replace s k (sort a nn) k (dist_to s b sample k)) _
              (replace-ordered_insert s k (sort a nn) k (dist_to s b sample k) word
                (omega (arith, sorted_len, len)))
              λ v (same, longer).
                Returns-mono _ (samples_loop s a b sample k r (k + 1) v)
                  (samples_loop-after r (k + 1) v (omega arith) (omega arith) longer)
                  λ u (f, g). (
                    f
                        ∙ take-insert_all k v.items (ordered_insert s iv (a.sort nn.items))
                            (distances s b sample r (k + 1)) same,
                    g,
                  ))

      samples_loop-IsFirst :
          (m r i n : ℕ) (nn : IndexVector D)
          → i + m ≡ k
          → n ≡ m + suc r
          → i + n ≡ b.nsamples
          → length nn.items ≡ i
          → Returns (IsFirst (target m r i nn)) (samples_loop s a b sample k n i nn)
      unfolding samples_loop round append
      samples_loop-IsFirst zero r i n nn at count e len =
          let here : i ≡ k = omega arith in
          let left : n ≡ suc r = omega arith in
          rw (here, left) (samples_loop-sorts r nn (omega arith) (omega arith))
      samples_loop-IsFirst (suc m) r i n nn at count e len =
          let iv : IndexVal D = index_val i (dist_to s b sample i) in
          let left : n ≡ suc (m + suc r) = omega arith in
          let early : ltb i (k % 2 ^ 32) ≡ true = ground (arith, word) in
          let same = append_assoc nn.items (iv ∷ []) (distances s b sample m (i + 1)) in
          rw (left, row_distance-dist_to s b sample i c (omega arith), early)
            (subst
              (λ l.
                Returns (IsFirst (insert_all s (a.sort l) (distances s b sample (suc r) k)))
                  (samples_loop s a b sample k (m + suc r) (i + 1) (append nn iv)))
              same
              (samples_loop-IsFirst m r (i + 1) (m + suc r) (append nn iv) (omega arith) refl
                (omega arith) (omega (arith, len, length-append nn.items (iv ∷ [])))))

-- the nearest `k` of all samples, sorted by their distance
pub record IsNearestOf {D : Type 0} (s : Scalar D) (b : BruteForce D) (sample : List D) (k : ℕ)
    (v : IndexVector D) : Type 0 where
  pub all : List (IndexVal D)
  pub sorted : IsSorted s all
  pub perm : Perm all (distances s b sample b.nsamples 0)
  pub items : v.items ≡ take k all

module _ {D : Type 0} (s : Scalar D) where
  trimmed :
      (blank : IndexVal D) (k : ℕ) (v : IndexVector D)
      → k < 2 ^ 31
      → k ≤ length v.items
      → (if ltb (k % 2 ^ 32) (size v) then trim blank v k else v).items ≡ take k v.items
  unfolding size trim
  trimmed blank k v word h = elim (Bool-cases (ltb (k % 2 ^ 32) (length v.items))) [
    | inl longer ↦
        let none_left : k - length v.items ≡ 0 = omega (arith, h) in
        rw (longer, none_left) (append-nil (take k v.items))
    | inr not_longer ↦
        let all : length v.items ≤ k = ground (arith, word) in
        rw not_longer (sym (take-length k v.items all))
  ]

  -- `getNN` of fewer neighbours than there are samples and than 2 ^ 31, of fewer than 2 ^ 32 samples,
  -- whose indexes are then those of a `sample_id_t`, returns the nearest ones, sorted.
  pub get_nn-IsNearestOf :
      (o : IsOrdered s) (a : Algorithms D) (blank : IndexVal D) (b : BruteForce D) (sample : List D)
      (k : ℕ)
      → IsAlgorithms s a
      → IsComplete s b sample
      → k < 2 ^ 31
      → b.nsamples < 2 ^ 32
      → k < b.nsamples
      → Returns (IsNearestOf s b sample k) (get_nn s a blank b sample k)
  unfolding get_nn IndexVector.create
  get_nn-IsNearestOf o a blank b sample k laws c word indexes h =
      let r : ℕ = b.nsamples - k - 1 in
      let first : List (IndexVal D) = distances s b sample k 0 in
      let rest : List (IndexVal D) = distances s b sample (suc r) k in
      bind-Returns _ (samples_loop s a b sample k b.nsamples 0 IndexVector.create) _
        (samples_loop-IsFirst s a b sample c k word laws k r 0 b.nsamples IndexVector.create
          (omega arith) (omega arith) (omega arith) refl)
        λ v (same, len). record {
          all = insert_all s (a.sort first) rest;
          sorted = insert_all-IsSorted s o (a.sort first) rest (laws.sort_sorted first);
          perm = Perm.trans (insert_all-perm s (a.sort first) rest) (
              Perm.trans (Perm.append (Perm.refl rest) (laws.sort_perm first)) (
                subst (Perm (rest ++ first))
                  (distances-append s b sample k (suc r) 0 k b.nsamples (omega arith) (omega arith))
                  ∣ Permᴰ.append_comm rest first ∣₁));
          items = trimmed blank k v word len ∙ same;
        }
