-- ===== src/NnVector/Walks.antt =====
-- `to_IndexVector`, `find` and the comparison of two vectors.
use native.Mathlib.Numerals.{add-one}
use monya.Prelude.{
  ℕ, zero, suc, ◌+◌, ◌<◌, ◌≤◌, ◌^◌, ◌≡◌, refl, sym, ap, subst, Bool, true, false, ◌&&◌, some, List,
  [], ◌∷◌, arith, ◌==◌, if◌then◌else◌, Bool-cases, inl, inr, length, get_elem?, drop, ok,
  out_of_fuel, Returns, bind-Returns, Scalar,
}
use monya.IndexVector
use monya.IndexVector.{IndexVal, IndexVector, val_eq, val_ne}
use monya.NnVector.{Ptr, NnVector, get_data}
use monya.NnVector.Reads.{
  at, to_index_vector, to_index_vector_loop, find, find_loop, equals, equals_loop,
}
use monya.NnVector.Chain.{has, Chain, items}
use monya.NnVector.Eval.{length-map}
use monya.NnVector.Refinement.{Represents}
use monya.NnVector.Access.{at-get_elem?}

module _ {D : Type 0} where
  to_index_vector_loop_stays :
      (fuel : ℕ) (v : NnVector D) (p : Ptr) (ret : IndexVector D)
      → (p == v.sentinel) ≡ false
      → v.mem.live p ≡ true
      → to_index_vector_loop fuel v p ret ≡ out_of_fuel
  unfolding to_index_vector_loop get_data
  to_index_vector_loop_stays zero v p ret h l = refl
  to_index_vector_loop_stays (suc fuel) v p ret h l =
      rw (h, l) (to_index_vector_loop_stays fuel v p (IndexVector.append ret (v.mem.value p)) h l)

  -- The first node of a vector that is not empty.
  first_node :
      (v : NnVector D) (x : IndexVal D) (l : List (IndexVal D))
      → Represents v (x ∷ l)
      → (p : Ptr) × (v.mem.next v.sentinel ≡ p)
        × ((p == v.sentinel) ≡ false)
        × (v.mem.live p ≡ true)
        × (v.mem.value p ≡ x)
  first_node v x l r = go r.cells r.holds.chain r.holds.apart r.contents
    where
      go :
          (xs : List (Ptr × IndexVal D))
          → Chain v.mem v.sentinel xs v.sentinel
          → has v.sentinel xs ≡ false
          → items xs ≡ x ∷ l
          → (p : Ptr) × (v.mem.next v.sentinel ≡ p)
            × ((p == v.sentinel) ≡ false)
            × (v.mem.live p ≡ true)
            × (v.mem.value p ≡ x)
      go [] c a e = cc
      go ((p, y) ∷ xs) c a e = (p, c.0, ground arith, c.3, ground arith)

  -- `to_IndexVector` of a vector that is not empty never returns.
  pub to_index_vector_diverges :
      (fuel : ℕ) (v : NnVector D) (x : IndexVal D) (l : List (IndexVal D))
      → Represents v (x ∷ l)
      → to_index_vector fuel v ≡ out_of_fuel
  unfolding to_index_vector
  to_index_vector_diverges fuel v x l r =
      let (p, next, other, live, _) = first_node v x l r in
      rw (r.holds.sentinel_live, next)
        (to_index_vector_loop_stays fuel v p IndexVector.create other live)

module _ {D : Type 0} (s : Scalar D) where
  find_loop_stays :
      (fuel : ℕ) (v : NnVector D) (p : Ptr) (iv : IndexVal D)
      → (p == v.sentinel) ≡ false
      → v.mem.live p ≡ true
      → val_eq s (v.mem.value p) iv ≡ false
      → find_loop s fuel v p iv ≡ out_of_fuel
  unfolding find_loop get_data
  find_loop_stays zero v p iv h l e = refl
  find_loop_stays (suc fuel) v p iv h l e = rw (h, l, e) (find_loop_stays fuel v p iv h l e)

  -- `find` returns only where the first item answers: it never gets past one of another value.
  pub find_first_only :
      (fuel : ℕ) (v : NnVector D) (iv x : IndexVal D) (l : List (IndexVal D))
      → Represents v (x ∷ l)
      → find s (suc fuel) v iv ≡ (if val_eq s x iv then ok true else out_of_fuel)
  unfolding find find_loop get_data
  find_first_only fuel v iv x l r =
      let (p, next, other, live, value) = first_node v x l r in
      elim (Bool-cases (val_eq s x iv)) [
        | inl e ↦ rw (r.holds.sentinel_live, next, other, live, value, e) refl
        | inr e ↦
            rw (r.holds.sentinel_live, next, other, live, value, e)
              (find_loop_stays fuel v p iv other live (rw value e))
      ]

  -- equal lengths, and equal values at each position
  pub same_values : List (IndexVal D) → List (IndexVal D) → Bool
  same_values [] [] = true
  same_values [] (y ∷ ys) = false
  same_values (x ∷ xs) [] = false
  same_values (x ∷ xs) (y ∷ ys) = val_eq s y x && same_values xs ys

  same_values-length :
      (l m : List (IndexVal D)) → (length m == length l) ≡ false → same_values l m ≡ false
  unfolding same_values
  same_values-length [] [] h = cc
  same_values-length [] (y ∷ m) h = refl
  same_values-length (x ∷ l) [] h = refl
  same_values-length (x ∷ l) (y ∷ m) h = ground (arith, same_values-length l m)

  pub drop-some :
      (l : List (IndexVal D)) (i : ℕ) (x : IndexVal D)
      → get_elem? l i ≡ some x
      → drop i l ≡ x ∷ drop (suc i) l
  drop-some [] i x e = cc
  drop-some (y ∷ l) zero x e = ground arith
  drop-some (y ∷ l) (suc i) x e = drop-some l i x e

  pub drop_all : (l : List (IndexVal D)) (i : ℕ) → length l ≤ i → drop i l ≡ []
  drop_all [] zero h = refl
  drop_all [] (suc i) h = refl
  drop_all (x ∷ l) zero h = absurd (omega arith)
  drop_all (x ∷ l) (suc i) h = drop_all l i (omega arith)

  same_values_step :
      (l m : List (IndexVal D)) (i : ℕ) (a b : IndexVal D)
      → get_elem? m i ≡ some a
      → get_elem? l i ≡ some b
      → same_values (drop i l) (drop i m)
        ≡ (s.eq a.val b.val && same_values (drop (suc i) l) (drop (suc i) m))
  unfolding same_values
  same_values_step l m i a b ea eb = rw (drop-some l i b eb, drop-some m i a ea)

  abbrev pub Compared :
      List (IndexVal D) → List (IndexVal D) → Bool → NnVector D × NnVector D × Bool → Type 0
  Compared l m b (v, w, c) = Represents v l × Represents w m × (c ≡ b)

  equals_loop-Compared :
      (n i : ℕ) (v w : NnVector D) (l m : List (IndexVal D))
      → Represents v l
      → Represents w m
      → length l < 2 ^ 64
      → length m ≡ length l
      → i + n ≡ length l
      → Returns (Compared l m (same_values (drop i l) (drop i m))) (equals_loop s n i v w)
  unfolding equals_loop
  equals_loop-Compared zero i v w l m rv rw' h e f =
      (rv, rw', unfold same_values in rw (drop_all l i (omega arith), drop_all m i (omega arith)))
  equals_loop-Compared (suc n) i v w l m rv rw' h e f =
      bind-Returns (Compared l m (same_values (drop i l) (drop i m))) (at w i) _
        (at-get_elem? w m i rw' (omega arith) (omega arith))
        λ (w', a) (ra, ea).
          bind-Returns (Compared l m (same_values (drop i l) (drop i m))) (at v i) _
            (at-get_elem? v l i rv h (omega arith))
            λ (v', b) (rb, eb).
              let step = same_values_step l m i a b ea eb in
              elim (Bool-cases (s.eq a.val b.val)) [
                | inl same ↦
                    let on : same_values (drop (i + 1) l) (drop (i + 1) m)
                        ≡ same_values (drop i l) (drop i m) =
                      rw (add-one, step, same) in
                    rw same (
                      subst (λ c. Returns (Compared l m c) (equals_loop s n (i + 1) v' w')) on
                        (equals_loop-Compared n (i + 1) v' w' l m rb ra h e (omega arith)))
                | inr differ ↦
                    let off : false ≡ same_values (drop i l) (drop i m) = rw (step, differ) in
                    rw differ (rb, ra, off)
              ]

  pub size-length : (v : NnVector D) (l : List (IndexVal D)) → Represents v l → v.size ≡ length l
  size-length v l r = omega (
    arith,
    r.holds.count,
    length-map (λ (c : Ptr × IndexVal D). c.1) r.cells,
    ap length r.contents,
  )

  -- Two vectors compare equal exactly where their lists have one length and the same values.
  pub equals-same_values :
      (v w : NnVector D) (l m : List (IndexVal D))
      → Represents v l
      → Represents w m
      → length l < 2 ^ 64
      → length m < 2 ^ 64
      → Returns (Compared l m (same_values l m)) (equals s v w)
  unfolding equals
  equals-same_values v w l m rv rm hl hm =
      let lv = size-length v l rv in
      let lw = size-length w m rm in
      elim (Bool-cases (w.size == v.size)) [
        | inl same ↦
            let len : length m ≡ length l = ground (arith, lv, lw) in
            rw same (equals_loop-Compared v.size 0 v w l m rv rm hl len (omega (arith, lv)))
        | inr differ ↦
            let len : (length m == length l) ≡ false = ground (arith, lv, lw) in
            rw differ (rv, rm, sym (same_values-length l m len))
      ]
