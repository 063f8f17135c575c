-- ===== src/Metric/Accuracy.antt =====
-- The accuracy is that of the exact values that the approximate neighbours hold.
use mathlib.Core.List.Perm
use monya.Prelude.{
  ℕ, zero, suc, ◌+◌, ◌≡◌, refl, ◌∙◌, inl, inr, true, Bool-cases, List, [], ◌∷◌, Perm, arith, length,
  drop, drop-length, drop-get_elem?, get_elem?-in_range, Returns, Returns-mono, bind-Returns,
  Scalar, ◌==◌, if◌then◌else◌,
}
use monya.IndexVector.{IndexVal, IndexVector, Algorithms, find, size}
use monya.IndexVector.Laws.{
  IsAlgorithms, FlagHolds, contains, contains-perm, get-get_elem?, find-contains,
}
use monya.Metric.{count_matches, get_raw_accuracy}

module _ {D : Type 0} (s : Scalar D) where
  -- how many of the items have an equivalent value in a list
  abbrev pub hits : List (IndexVal D) → List (IndexVal D) → ℕ
  hits held [] = 0
  hits held (iv ∷ ivs) = if contains s held iv then suc (hits held ivs) else hits held ivs

  module _ (a : Algorithms D) (laws : IsAlgorithms s a) (exact : IndexVector D) where
    count_matches-hits :
        (held : List (IndexVal D)) (n i count : ℕ) (approx : IndexVector D)
        → i + n ≡ length exact.items
        → Perm approx.items held
        → FlagHolds s approx
        → Returns
            (λ (w, m). (m ≡ count + hits held (drop i exact.items)) × Perm w.items held)
            (count_matches a approx exact n i count)
    unfolding count_matches
    count_matches-hits held zero i count approx e p f =
        let ended : drop i exact.items ≡ [] = drop-length i exact.items (omega arith) in
        rw ended (omega arith, p)
    count_matches-hits held (suc n) i count approx e p f =
        let (iv, at) = get_elem?-in_range exact.items i (omega arith) in
        let (w, found) = find a approx iv in
        let (is_in, same, is_sorted, flag) = find-contains s a approx iv laws f in
        let held_too : found ≡ contains s held iv =
          is_in ∙ contains-perm s iv approx.items held p in
        rw
          (
            get-get_elem? s exact i iv at,
            drop-get_elem? exact.items i (i + 1) iv at (omega arith),
            held_too,
          )
          (elim (Bool-cases (contains s held iv)) [
            | inl holds ↦ rw holds (
                Returns-mono _ (count_matches a w exact n (i + 1) (count + 1))
                  (count_matches-hits held n (i + 1) (count + 1) w (omega arith) (Perm.trans same p)
                    (λ _. is_sorted))
                  λ u r. (omega (arith, r.0), r.1))
            | inr lacks ↦ rw lacks (
                count_matches-hits held n (i + 1) count w (omega arith) (Perm.trans same p)
                  (λ _. is_sorted))
          ])

    -- Of two lists of one length, the first's flag not lying, `get_raw_accuracy` returns the share of
    -- the exact items whose value the approximate ones hold, and keeps these up to their order.
    pub get_raw_accuracy-hits :
        (ratio : ℕ → ℕ → D) (approx : IndexVector D)
        → size approx ≡ size exact
        → FlagHolds s approx
        → Returns
            (λ (w, r).
              (r ≡ (
                if hits approx.items exact.items == 0
                then s.zero_value
                else ratio (hits approx.items exact.items) (size exact)))
              × Perm w.items approx.items)
            (get_raw_accuracy s a ratio approx exact)
    unfolding get_raw_accuracy size
    get_raw_accuracy-hits ratio approx same f =
        let yes_same : (length approx.items == length exact.items) ≡ true = ground arith in
        rw yes_same (
          bind-Returns _ (count_matches a approx exact (length approx.items) 0 0) _
            (count_matches-hits approx.items (length approx.items) 0 0 approx (omega arith)
              (Perm.refl _) f)
            λ u r.
              let counted : u.1 ≡ hits approx.items exact.items = omega (arith, r.0) in
              (rw (counted, same) refl, r.1))
