-- ===== src/IndexVector/Unique.antt =====
-- Two sorted orders of the same items have equal values, position by position.
use mathlib.Core.List.{Permᴰ}
use mathlib.Core.Logic.{∥∥₁_elim}
use native.Mathlib.Nat.{ℕ_set}
use monya.Prelude.{
  ℕ, zero, suc, ◌+◌, ◌≤◌, ◌≡◌, refl, sym, subst, ◌∙◌, inl, inr, true, false, List, [], ◌∷◌, Perm,
  arith, Bool-cases, if◌then◌else◌, get_elem?, some, Scalar, IsOrdered,
}
use mathlib.Core.Option.{some-injective}
use monya.IndexVector.{IndexVal, val_lt, val_eq}
use monya.IndexVector.Order.{NoneBelow, IsSorted}

module _ {D : Type 0} (s : Scalar D) where
  -- how many items have a value below that of `v`
  below : IndexVal D → List (IndexVal D) → ℕ
  below v [] = 0
  below v (x ∷ xs) = (if val_lt s x v then 1 else 0) + below v xs

  below-permᴰ : (v : IndexVal D) {xs ys : List (IndexVal D)} → Permᴰ xs ys → below v xs ≡ below v ys
  unfolding below
  below-permᴰ v Permᴰ.nil = refl
  below-permᴰ v (Permᴰ.cons e p) = rw (e, below-permᴰ v p) refl
  below-permᴰ v (Permᴰ.swap e f) = rw (e, f) (omega arith)
  below-permᴰ v (Permᴰ.trans p q) = below-permᴰ v p ∙ below-permᴰ v q

  below-perm : (v : IndexVal D) (xs ys : List (IndexVal D)) → Perm xs ys → below v xs ≡ below v ys
  below-perm v xs ys p = ∥∥₁_elim p (ℕ_set _ _) (λ d. below-permᴰ v d)

  none_below : (v : IndexVal D) (xs : List (IndexVal D)) → NoneBelow s v xs → below v xs ≡ 0
  unfolding below
  none_below v [] n = refl
  none_below v (x ∷ xs) n = rw n.0 (omega (arith, none_below v xs n.1))

  NoneBelow-get_elem? :
      (z : IndexVal D) (xs : List (IndexVal D)) (i : ℕ) (y : IndexVal D)
      → NoneBelow s z xs
      → get_elem? xs i ≡ some y
      → val_lt s y z ≡ false
  NoneBelow-get_elem? z [] i y n e = cc
  NoneBelow-get_elem? z (x ∷ xs) zero y n e =
      subst (λ w. val_lt s w z ≡ false) (some-injective x y e) n.0
  NoneBelow-get_elem? z (x ∷ xs) (suc i) y n e = NoneBelow-get_elem? z xs i y n.1 e

  module _ (o : IsOrdered s) where
    -- at most the items before it
    below-before :
        (xs : List (IndexVal D)) (i : ℕ) (x : IndexVal D)
        → IsSorted s xs
        → get_elem? xs i ≡ some x
        → below x xs ≤ i
    unfolding below
    below-before [] i x h e = cc
    below-before (z ∷ zs) zero x h e =
        let here : z ≡ x = some-injective z x e in
        subst (λ w. below w (z ∷ zs) ≤ 0) here
          (rw (o.lt_irrefl z.val) (omega (arith, none_below z zs h.0)))
    below-before (z ∷ zs) (suc i) x h e = ground (arith, below-before zs i x h.1 e)

    -- at least it and the items before it
    below-after :
        (ys : List (IndexVal D)) (i : ℕ) (y v : IndexVal D)
        → IsSorted s ys
        → get_elem? ys i ≡ some y
        → val_lt s y v ≡ true
        → suc i ≤ below v ys
    unfolding below
    below-after [] i y v h e l = cc
    below-after (z ∷ zs) zero y v h e l =
        let here : y ≡ z = sym (some-injective z y e) in
        let first : val_lt s z v ≡ true = subst (λ w. val_lt s w v ≡ true) here l in
        rw first (omega arith)
    below-after (z ∷ zs) (suc i) y v h e l =
        let not_under : val_lt s y z ≡ false = NoneBelow-get_elem? z zs i y h.0 e in
        let first : val_lt s z v ≡ true = ground (arith, o.lt_weak y.val z.val v.val l) in
        rw first (omega (arith, below-after zs i y v h.1 e l))

    -- The items at one position of two sorted orders have equal values.
    pub sorted_eq :
        (xs ys : List (IndexVal D)) (i : ℕ) (x y : IndexVal D)
        → IsSorted s xs
        → IsSorted s ys
        → Perm xs ys
        → get_elem? xs i ≡ some x
        → get_elem? ys i ≡ some y
        → val_eq s x y ≡ true
    sorted_eq xs ys i x y h k p e f = elim (Bool-cases (val_lt s x y)) [
      | inl l ↦
          absurd (
            omega
              (arith, below-after xs i x y h e l, below-before ys i y k f, below-perm y xs ys p))
      | inr nl ↦ elim (Bool-cases (val_lt s y x)) [
        | inl l ↦ absurd (
            omega
              (arith, below-after ys i y x k f l, below-before xs i x h e, below-perm x xs ys p))
        | inr ng ↦ rw (o.eq_lt x.val y.val, nl, ng) refl
      ]
    ]
