-- ===== src/BruteForce/Replace.antt =====
-- The replacement of a neighbour is the ordered insertion, as far as the first `k` items go.
use mathlib.Core.Option.{some-injective}
use monya.Prelude.{
  ◌≢◌, Bool, ℕ, zero, suc, ◌+◌, ◌^◌, ◌<◌, ◌≤◌, ◌≡◌, refl, sym, ap, subst, ◌∙◌, inl, inr, true,
  false, Option, none, some, List, [], ◌∷◌, ◌++◌, arith, Bool-cases, if◌then◌else◌, length,
  length-take, get_elem?, get_elem?-in_range, take, drop, ok, Returns, Scalar, leb,
}
use monya.IndexVector.{IndexVal, index_val, IndexVector, insert}
use monya.IndexVector.Order.{ordered_insert, length-ordered_insert}
use monya.IndexVector.Laws.{get-get_elem?, int_index_lem}
use monya.BruteForce.{find_repl, replace}

some-none : {j : ℕ} → some j ≢ none
some-none e = cc

module _ {D : Type 0} (s : Scalar D) where
  abbrev shift : Option ℕ → Option ℕ
  shift none = none
  shift (some j) = some (suc j)

  abbrev or_else : Option ℕ → Option ℕ → Option ℕ
  or_else none r = r
  or_else (some j) r = some j

  -- the first position with a larger value
  abbrev first_larger : List (IndexVal D) → D → Option ℕ
  first_larger [] dist = none
  first_larger (x ∷ xs) dist = if s.lt dist x.val then some 0 else shift (first_larger xs dist)

  shift-or_else : (a b : Option ℕ) → shift (or_else a b) ≡ or_else (shift a) (shift b)
  shift-or_else none b = refl
  shift-or_else (some j) b = refl

  or_else_assoc : (a b c : Option ℕ) → or_else (or_else a b) c ≡ or_else a (or_else b c)
  or_else_assoc none b c = refl
  or_else_assoc (some j) b c = refl

  first_larger-append :
      (xs : List (IndexVal D)) (y : IndexVal D) (dist : D)
      → first_larger (xs ++ y ∷ []) dist
        ≡ or_else (first_larger xs dist) (if s.lt dist y.val then some (length xs) else none)
  first_larger-append [] y dist = refl
  first_larger-append (x ∷ xs) y dist = elim (Bool-cases (s.lt dist x.val)) [
    | inl e ↦ rw e refl
    | inr e ↦ rw e (
        ap shift (first_larger-append xs y dist)
        ∙ shift-or_else (first_larger xs dist) _
        ∙ ap (or_else (shift (first_larger xs dist))) (shift-if (s.lt dist y.val) (length xs)))
  ]
    where
      shift-if :
          (b : Bool) (n : ℕ)
          → shift (if b then some n else none) ≡ (if b then some (suc n) else none)
      shift-if true n = refl
      shift-if false n = refl

  take-suc :
      (xs : List (IndexVal D)) (j : ℕ) (y : IndexVal D)
      → get_elem? xs j ≡ some y
      → take (suc j) xs ≡ take j xs ++ y ∷ []
  take-suc [] j y e = cc
  take-suc (x ∷ xs) zero y e = ap (λ z. z ∷ []) (some-injective x y e)
  take-suc (x ∷ xs) (suc j) y e = ap (◌∷◌ x) (take-suc xs j y e)

  find_repl-first_larger :
      (j : ℕ) (nn : IndexVector D) (dist : D) (r : Option ℕ)
      → j < 2 ^ 31 + 1
      → j ≤ length nn.items
      → find_repl s j nn dist r ≡ ok (or_else (first_larger (take j nn.items) dist) r)
  unfolding find_repl
  find_repl-first_larger zero nn dist r small h = refl
  find_repl-first_larger (suc j) nn dist r small h =
      let (y, e) = get_elem?-in_range nn.items j (omega arith) in
      rw (int_index_lem j (omega arith), get-get_elem? s nn j y e)
        (find_repl-first_larger j nn dist (if s.lt dist y.val then some j else r) (omega arith)
            (omega arith)
          ∙ ap ok (
              sym (
                ap (λ l. or_else (first_larger l dist) r) (take-suc nn.items j y e)
                ∙ ap (λ o. or_else o r) (first_larger-append (take j nn.items) y dist)
                ∙ or_else_assoc (first_larger (take j nn.items) dist) _ r
                ∙ ap (or_else (first_larger (take j nn.items) dist)) (
                    last_one (s.lt dist y.val) (length (take j nn.items)) j r
                      (omega (arith, length-take j nn.items))))))
    where
      last_one :
          (b : Bool) (n j : ℕ) (r : Option ℕ)
          → n ≡ j
          → or_else (if b then some n else none) r ≡ (if b then some j else r)
      last_one true n j r e = ap some e
      last_one false n j r e = refl

  shift-some : (o : Option ℕ) (j : ℕ) → shift o ≡ some j → (i : ℕ) × (o ≡ some i) × (suc i ≡ j)
  shift-some none j e = cc
  shift-some (some i) j e = (i, refl, some-injective (suc i) j e)

  shift-none : (o : Option ℕ) → shift o ≡ none → o ≡ none
  shift-none none e = refl
  shift-none (some i) e = cc

  -- where a larger value is among the first `k`
  insert-first_larger :
      (k : ℕ) (xs : List (IndexVal D)) (iv : IndexVal D) (j : ℕ)
      → first_larger (take k xs) iv.val ≡ some j
      → (j ≤ length xs) × (take j xs ++ iv ∷ drop j xs ≡ ordered_insert s iv xs)
  unfolding ordered_insert
  insert-first_larger zero xs iv j e = cc
  insert-first_larger (suc k) [] iv j e = cc
  insert-first_larger (suc k) (x ∷ xs) iv j e = elim (Bool-cases (s.lt iv.val x.val)) [
    | inl a ↦
        let here : 0 ≡ j = some-injective 0 j (simp a at e) in
        subst
          (λ i.
            (i ≤ suc (length xs))
            × (take i (x ∷ xs) ++ iv ∷ drop i (x ∷ xs) ≡ ordered_insert s iv (x ∷ xs)))
          here (omega arith, rw a refl)
    | inr a ↦
        let (i, f, g) = shift-some (first_larger (take k xs) iv.val) j (simp a at e) in
        let (le, same) = insert-first_larger k xs iv i f in
        subst
          (λ i.
            (i ≤ suc (length xs))
            × (take i (x ∷ xs) ++ iv ∷ drop i (x ∷ xs) ≡ ordered_insert s iv (x ∷ xs)))
          g (omega arith, rw a (ap (◌∷◌ x) same))
  ]

  no_larger-take :
      (k : ℕ) (xs : List (IndexVal D)) (iv : IndexVal D)
      → k ≤ length xs
      → first_larger (take k xs) iv.val ≡ none
      → take k (ordered_insert s iv xs) ≡ take k xs
  unfolding ordered_insert
  no_larger-take zero xs iv h e = refl
  no_larger-take (suc k) [] iv h e = absurd (omega arith)
  no_larger-take (suc k) (x ∷ xs) iv h e = elim (Bool-cases (s.lt iv.val x.val)) [
    | inl a ↦ absurd (some-none (simp a at e))
    | inr a ↦
        let f = shift-none (first_larger (take k xs) iv.val) (simp a at e) in
        rw a (ap (◌∷◌ x) (no_larger-take k xs iv (omega arith) f))
  ]

  -- `replace` returns, and the first `k` items are those of the ordered insertion.
  pub replace-ordered_insert :
      (k : ℕ) (nn : IndexVector D) (i : ℕ) (dist : D)
      → k < 2 ^ 31
      → k ≤ length nn.items
      → Returns
          (λ v.
            (take k v.items ≡ take k (ordered_insert s (index_val i dist) nn.items))
            × (k ≤ length v.items))
          (replace s k nn i dist)
  unfolding replace insert
  replace-ordered_insert k nn i dist small h =
      rw (find_repl-first_larger k nn dist none (omega arith) h)
        (either (first_larger (take k nn.items) dist) refl)
    where
      either :
          (o : Option ℕ)
          → first_larger (take k nn.items) dist ≡ o
          → Returns
              (λ v.
                (take k v.items ≡ take k (ordered_insert s (index_val i dist) nn.items))
                × (k ≤ length v.items))
              (elim (or_else o none) [ none ↦ ok nn | some j ↦ insert nn (index_val i dist) j ])
      either none e = (sym (no_larger-take k nn.items (index_val i dist) h e), h)
      either (some j) e =
          let (le, same) = insert-first_larger k nn.items (index_val i dist) j e in
          let fits : leb j (length nn.items) ≡ true = ground (arith, le) in
          rw fits (
            ap (take k) same,
            omega (arith, h, ap length same, length-ordered_insert s (index_val i dist) nn.items),
          )
