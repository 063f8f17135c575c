-- ===== src/IndexVector/Laws.antt =====
-- `IndexVector`: what `resize` comes to, and `find` through the `sorted` flag.
use mathlib.Core.List.{Permᴰ}
use mathlib.Core.List.Perm
use mathlib.Core.Bool.{Bool-set}
use mathlib.Core.Logic.{∥∥₁_elim}
use monya.Prelude.{
  ℕ, zero, suc, ◌+◌, ◌-◌, ◌/◌, ◌≤◌, ◌<◌, ◌^◌, ◌≡◌, none, some, get_elem?, ok, fault, refl, ap,
  subst, ◌∙◌, inl, inr, Bool, true, false, not, ◌&&◌, ◌||◌, List, [], ◌∷◌, ◌++◌, Perm, arith,
  Bool-cases, length, length-append, Returns, Returns-mono, bind-Returns, ltb, leb, ltb→lt, Scalar,
}
use monya.IndexVector.{
  IndexVal, index_val, IndexVector, Algorithms, val_lt, get, int_index, sort, find, append, size,
  resize, resize_loop,
}
use monya.IndexVector.Order.{NoneBelow, IsSorted}

pub int_index_lem : (i : ℕ) → i < 2 ^ 31 → int_index i ≡ i
unfolding int_index
int_index_lem i h = ground arith

module _ {D : Type 0} (s : Scalar D) where
  resize_loop-length :
      (fuel i nelem : ℕ) (items : List (IndexVal D))
      → length items ≤ nelem
      → nelem < fuel + length items
      → Returns
          (λ r. length r ≡ length items + (nelem - length items - i + 1) / 2)
          (resize_loop s fuel i nelem items)
  unfolding resize_loop
  resize_loop-length zero i nelem items h f = absurd (omega arith)
  resize_loop-length (suc fuel) i nelem items h f =
      let longer = items ++ index_val 0 s.zero_value ∷ [] in
      let len = length-append items (index_val 0 s.zero_value ∷ []) in
      elim (Bool-cases (ltb i (nelem - length items))) [
        | inl more ↦
            let still : i < nelem - length items = ltb→lt i (nelem - length items) more in
            rw more (
              Returns-mono _ (resize_loop s fuel (i + 1) nelem longer)
                (resize_loop-length fuel (i + 1) nelem longer (omega (arith, len))
                  (omega (arith, len)))
                λ r e. omega (arith, len, e))
        | inr done ↦ let ended : nelem - length items ≤ i = ground arith in rw done (omega arith)
      ]

  -- `resize(nelem)` adds half of the missing elements, rounded up, since its loop compares a growing
  -- counter with the shrinking number of those still missing.
  pub resize_adds_half :
      (v : IndexVector D) (nelem : ℕ)
      → size v ≤ nelem
      → Returns (λ w. size w ≡ size v + (nelem - size v + 1) / 2) (resize s v nelem)
  unfolding resize size
  resize_adds_half v nelem h =
      let enough : leb (length v.items) nelem ≡ true = ground arith in
      rw enough (
        bind-Returns
          (λ (w : IndexVector D).
            length w.items ≡ length v.items + (nelem - length v.items + 1) / 2)
          (resize_loop s (nelem + 1) 0 nelem v.items) _
          (resize_loop-length (nelem + 1) 0 nelem v.items h (omega arith)) λ r e. omega (arith, e))

  -- an item of a value equivalent to that of `iv`
  pub contains : List (IndexVal D) → IndexVal D → Bool
  contains [] iv = false
  contains (x ∷ xs) iv = (not (val_lt s x iv) && not (val_lt s iv x)) || contains xs iv

  contains-permᴰ :
      (iv : IndexVal D) {xs ys : List (IndexVal D)} → Permᴰ xs ys → contains xs iv ≡ contains ys iv
  unfolding contains
  contains-permᴰ iv Permᴰ.nil = refl
  contains-permᴰ iv (Permᴰ.cons e p) = rw (e, contains-permᴰ iv p)
  contains-permᴰ iv (Permᴰ.swap e f) = rw (e, f) (ground arith)
  contains-permᴰ iv (Permᴰ.trans p q) = contains-permᴰ iv p ∙ contains-permᴰ iv q

  pub contains-perm :
      (iv : IndexVal D) (xs ys : List (IndexVal D)) → Perm xs ys → contains xs iv ≡ contains ys iv
  contains-perm iv xs ys p = ∥∥₁_elim p (Bool-set _ _) (λ d. contains-permᴰ iv d)

  pub get-get_elem? :
      (v : IndexVector D) (i : ℕ) (y : IndexVal D) → get_elem? v.items i ≡ some y → get v i ≡ ok y
  unfolding get
  get-get_elem? v i y e = ap (λ o. elim o [ none ↦ fault | some iv ↦ ok iv ]) e

  -- what the standard says of the algorithms that the code calls
  pub record IsAlgorithms (a : Algorithms D) : Type 0 where
    pub sort_perm : (l : List (IndexVal D)) → Perm (a.sort l) l
    pub sort_sorted : (l : List (IndexVal D)) → IsSorted s (a.sort l)
    pub parallel_sort_perm : (l : List (IndexVal D)) → Perm (a.parallel_sort l) l
    pub parallel_sort_sorted : (l : List (IndexVal D)) → IsSorted s (a.parallel_sort l)
    pub search :
        (l : List (IndexVal D)) (iv : IndexVal D)
        → IsSorted s l
        → a.binary_search l iv ≡ contains l iv

  -- the flag does not lie
  abbrev pub FlagHolds : IndexVector D → Type 0
  FlagHolds v = v.sorted ≡ true → IsSorted s v.items

  -- Where the flag does not lie, `find` answers whether an equivalent value is there. It keeps the
  -- items, up to their order, and leaves them sorted.
  pub find-contains :
      (a : Algorithms D) (v : IndexVector D) (iv : IndexVal D)
      → IsAlgorithms a
      → FlagHolds v
      → let r = find a v iv in
        (r.1 ≡ contains v.items iv)
        × Perm r.0.items v.items
        × IsSorted s r.0.items
        × (r.0.sorted ≡ true)
  unfolding find sort
  find-contains a v iv laws flag = elim (Bool-cases v.sorted) [
    | inl yes_sorted ↦
        rw yes_sorted (laws.search v.items iv (flag yes_sorted), Perm.refl _, flag yes_sorted, refl)
    | inr not_sorted ↦ rw not_sorted (
      laws.search (a.sort v.items) iv (laws.sort_sorted v.items)
          ∙ contains-perm iv (a.sort v.items) v.items (laws.sort_perm v.items),
      laws.sort_perm v.items,
      laws.sort_sorted v.items,
      refl,
    )
  ]

  NoneBelow-append :
      (a b : IndexVal D) (xs : List (IndexVal D))
      → val_lt s b a ≡ true
      → ¬ NoneBelow s a (xs ++ b ∷ [])
  NoneBelow-append a b [] h n = cc
  NoneBelow-append a b (x ∷ xs) h n = NoneBelow-append a b xs h n.1

  -- `append` keeps the flag: after a value below the first one the vector claims to be sorted, and
  -- is not.
  pub append_stale_flag :
      (v : IndexVector D) (x iv : IndexVal D) (xs : List (IndexVal D))
      → v.sorted ≡ true
      → v.items ≡ x ∷ xs
      → val_lt s iv x ≡ true
      → ((append v iv).sorted ≡ true) × ¬ IsSorted s (append v iv).items
  unfolding append
  append_stale_flag v x iv xs flag e below =
      (flag, λ o. NoneBelow-append x iv xs below (subst (λ l. IsSorted s (l ++ iv ∷ [])) e o).0)
