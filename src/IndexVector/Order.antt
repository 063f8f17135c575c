-- ===== src/IndexVector/Order.antt =====
-- Lists of `IndexVal` in the order of their values.
use mathlib.Core.List.{perm_middle}
use mathlib.Core.List.Perm
use monya.Prelude.{
  ℕ, zero, suc, ◌≤◌, ◌≡◌, refl, ap, inl, inr, false, List, [], ◌∷◌, ◌++◌, Perm, arith, Bool-cases,
  if◌then◌else◌, Scalar, IsOrdered, length, take,
}
use monya.IndexVector.{IndexVal, val_lt}

take-take {ℓ} : {A : Type ℓ} (m n : ℕ) (xs : List A) → m ≤ n → take m (take n xs) ≡ take m xs
take-take zero n xs h = refl
take-take (suc m) zero xs h = absurd (omega arith)
take-take (suc m) (suc n) [] h = refl
take-take (suc m) (suc n) (x ∷ xs) h = ap (◌∷◌ x) (take-take m n xs (omega arith))

take-cons-take {ℓ} :
    {A : Type ℓ} (k : ℕ) (x : A) (xs : List A) → take k (x ∷ take k xs) ≡ take k (x ∷ xs)
take-cons-take zero x xs = refl
take-cons-take (suc k) x xs = ap (◌∷◌ x) (take-take k (suc k) xs (omega arith))

module _ {D : Type 0} (s : Scalar D) where
  -- no value of the list is below that of `a`
  abbrev pub NoneBelow : IndexVal D → List (IndexVal D) → Type 0
  NoneBelow a [] = Unit
  NoneBelow a (x ∷ xs) = (val_lt s x a ≡ false) × NoneBelow a xs

  abbrev pub IsSorted : List (IndexVal D) → Type 0
  IsSorted [] = Unit
  IsSorted (x ∷ xs) = NoneBelow x xs × IsSorted xs

  -- before the first larger value
  unfoldable pub ordered_insert : IndexVal D → List (IndexVal D) → List (IndexVal D)
  ordered_insert a [] = a ∷ []
  ordered_insert a (x ∷ xs) = if val_lt s a x then a ∷ x ∷ xs else x ∷ ordered_insert a xs

  -- the items inserted one after the other
  unfoldable pub insert_all : List (IndexVal D) → List (IndexVal D) → List (IndexVal D)
  insert_all acc [] = acc
  insert_all acc (x ∷ xs) = insert_all (ordered_insert x acc) xs

  pub ordered_insert-perm :
      (a : IndexVal D) (xs : List (IndexVal D)) → Perm (ordered_insert a xs) (a ∷ xs)
  unfolding ordered_insert
  ordered_insert-perm a [] = Perm.refl _
  ordered_insert-perm a (x ∷ xs) = elim (Bool-cases (val_lt s a x)) [
    | inl e ↦ rw e (Perm.refl _)
    | inr e ↦ rw e (Perm.trans (Perm.cons x (ordered_insert-perm a xs)) (Perm.swap a x xs))
  ]

  pub insert_all-perm : (acc xs : List (IndexVal D)) → Perm (insert_all acc xs) (xs ++ acc)
  unfolding insert_all
  insert_all-perm acc [] = Perm.refl _
  insert_all-perm acc (x ∷ xs) =
      Perm.trans (insert_all-perm (ordered_insert x acc) xs)
        (Perm.trans (Perm.append (Perm.refl xs) (ordered_insert-perm x acc)) (perm_middle xs acc))

  pub length-ordered_insert :
      (a : IndexVal D) (xs : List (IndexVal D)) → length (ordered_insert a xs) ≡ suc (length xs)
  unfolding ordered_insert
  length-ordered_insert a [] = refl
  length-ordered_insert a (x ∷ xs) = ground (arith, length-ordered_insert a xs)

  -- `kept k xs items` feeds the items to a list that keeps its first `k`.
  unfoldable pub kept : ℕ → List (IndexVal D) → List (IndexVal D) → List (IndexVal D)
  kept k acc [] = acc
  kept k acc (x ∷ xs) = kept k (take k (ordered_insert x acc)) xs

  -- What lies beyond the first `k` never comes back into them.
  pub take-ordered_insert-take :
      (k : ℕ) (a : IndexVal D) (xs : List (IndexVal D))
      → take k (ordered_insert a (take k xs)) ≡ take k (ordered_insert a xs)
  unfolding ordered_insert
  take-ordered_insert-take zero a xs = refl
  take-ordered_insert-take (suc k) a [] = refl
  take-ordered_insert-take (suc k) a (x ∷ xs) =
      ground (arith, take-ordered_insert-take k a xs, take-cons-take k x xs)

  pub kept-take :
      (k : ℕ) (acc xs : List (IndexVal D)) → kept k (take k acc) xs ≡ take k (insert_all acc xs)
  unfolding kept insert_all
  kept-take k acc [] = refl
  kept-take k acc (x ∷ xs) =
      rw (take-ordered_insert-take k x acc) (kept-take k (ordered_insert x acc) xs)

  -- Dropping what does not fit at each step, or all of it at the end, leaves the same list.
  pub kept-insert_all : (k : ℕ) (xs : List (IndexVal D)) → kept k [] xs ≡ take k (insert_all [] xs)
  kept-insert_all zero xs = kept-take zero [] xs
  kept-insert_all (suc k) xs = kept-take (suc k) [] xs

  module _ (o : IsOrdered s) where
    NoneBelow-mono :
        (a b : IndexVal D) (xs : List (IndexVal D))
        → val_lt s b a ≡ false
        → NoneBelow b xs
        → NoneBelow a xs
    NoneBelow-mono a b [] h n = tt
    NoneBelow-mono a b (x ∷ xs) h n =
        (ground (arith, o.lt_weak x.val b.val a.val), NoneBelow-mono a b xs h n.1)

    NoneBelow-ordered_insert :
        (a b : IndexVal D) (xs : List (IndexVal D))
        → val_lt s b a ≡ false
        → NoneBelow a xs
        → NoneBelow a (ordered_insert b xs)
    unfolding ordered_insert
    NoneBelow-ordered_insert a b [] h n = (h, tt)
    NoneBelow-ordered_insert a b (x ∷ xs) h n =
        ground (arith, NoneBelow-ordered_insert a b xs h n.1)

    pub ordered_insert-IsSorted :
        (a : IndexVal D) (xs : List (IndexVal D)) → IsSorted xs → IsSorted (ordered_insert a xs)
    unfolding ordered_insert
    ordered_insert-IsSorted a [] h = (tt, tt)
    ordered_insert-IsSorted a (x ∷ xs) h = elim (Bool-cases (val_lt s a x)) [
      | inl e ↦
          let back : val_lt s x a ≡ false =
            ground (arith, o.lt_trans x.val a.val x.val, o.lt_irrefl x.val) in
          rw e ((back, NoneBelow-mono a x xs back h.0), h)
      | inr e ↦ rw e (NoneBelow-ordered_insert x a xs e h.0, ordered_insert-IsSorted a xs h.1)
    ]

    pub insert_all-IsSorted :
        (acc xs : List (IndexVal D)) → IsSorted acc → IsSorted (insert_all acc xs)
    unfolding insert_all
    insert_all-IsSorted acc [] h = h
    insert_all-IsSorted acc (x ∷ xs) h =
        insert_all-IsSorted (ordered_insert x acc) xs (ordered_insert-IsSorted x acc h)
