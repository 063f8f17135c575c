-- ===== src/KdTree/Divide.antt =====
-- An item of a sorted list divides its values.
use monya.Prelude.{
  ℕ, zero, suc, ◌≡◌, subst, false, some, List, [], ◌∷◌, arith, Scalar, IsOrdered, get_elem?, take,
  drop,
}
use monya.IndexVector.{IndexVal, val_lt}
use monya.IndexVector.Order.{NoneBelow, IsSorted}

module _ {D : Type 0} (s : Scalar D) where
  -- no value of the list is above that of `a`
  abbrev pub NoneAbove : IndexVal D → List (IndexVal D) → Type 0
  NoneAbove a [] = Unit
  NoneAbove a (x ∷ xs) = (val_lt s a x ≡ false) × NoneAbove a xs

  pub NoneBelow-get_elem? :
      (a x : IndexVal D) (xs : List (IndexVal D)) (i : ℕ)
      → NoneBelow s a xs
      → get_elem? xs i ≡ some x
      → val_lt s x a ≡ false
  NoneBelow-get_elem? a x [] i n e = cc
  NoneBelow-get_elem? a x (y ∷ xs) zero n e = ground arith
  NoneBelow-get_elem? a x (y ∷ xs) (suc i) n e = NoneBelow-get_elem? a x xs i n.1 e

  -- the item at a position of a sorted list divides it
  pub divided :
      (o : IsOrdered s) (xs : List (IndexVal D)) (i : ℕ) (x : IndexVal D)
      → IsSorted s xs
      → get_elem? xs i ≡ some x
      → NoneAbove x (take i xs) × NoneBelow s x (drop i xs)
  divided o [] i x h e = cc
  divided o (y ∷ xs) zero x h e =
      let same : y ≡ x = ground arith in
      (
        tt,
        (
          subst (λ z. val_lt s y z ≡ false) same (o.lt_irrefl y.val),
          subst (λ z. NoneBelow s z xs) same h.0,
        ),
      )
  divided o (y ∷ xs) (suc i) x h e =
      let (above, below) = divided o xs i x h.1 e in
      ((NoneBelow-get_elem? y x xs i h.0 e, above), below)

  -- only the value counts
  pub NoneAbove-val :
      (a b : IndexVal D) (xs : List (IndexVal D)) → a.val ≡ b.val → NoneAbove a xs → NoneAbove b xs
  NoneAbove-val a b [] e n = tt
  NoneAbove-val a b (x ∷ xs) e n =
      (subst (λ v. s.lt v x.val ≡ false) e n.0, NoneAbove-val a b xs e n.1)

  pub NoneBelow-val :
      (a b : IndexVal D) (xs : List (IndexVal D))
      → a.val ≡ b.val
      → NoneBelow s a xs
      → NoneBelow s b xs
  NoneBelow-val a b [] e n = tt
  NoneBelow-val a b (x ∷ xs) e n =
      (subst (λ v. s.lt x.val v ≡ false) e n.0, NoneBelow-val a b xs e n.1)
