-- ===== src/NnVector/Eval.antt =====
-- What `eval` does before it tests the size: a node goes before the first larger value, or to the
-- end where there is room.
use mathlib.Core.List.{append-nil, map-append}
use monya.Prelude.{
  ℕ, zero, suc, ◌+◌, ◌≤◌, ◌<◌, ◌≡◌, refl, sym, ap, subst, ◌∙◌, inl, inr, Bool, true, false, not,
  ◌&&◌, List, [], ◌∷◌, ◌++◌, map, arith, ◌==◌, if◌then◌else◌, Bool-cases, length, take,
  length-append, Run, ok, ◌>>=◌, Returns, Scalar, ltb,
}
use monya.IndexVector.{IndexVal, val_lt}
use monya.IndexVector.Order.{ordered_insert}
use monya.NnVector.{
  Ptr, NnVector, get_next, get_data, new_node, push_back, insert_before, eval_loop, eval_insert,
}
use monya.NnVector.Holds.{Holds, put, Holds-put, insert_before-put, push_back-put}
use monya.NnVector.Chain.{Chain, has, items, first, Chain-first}

pub take-append_left {ℓ} :
    {A : Type ℓ} (k : ℕ) (xs ys : List A) → k ≤ length xs → take k (xs ++ ys) ≡ take k xs
take-append_left zero xs ys h = refl
take-append_left (suc k) [] ys h = absurd (omega arith)
take-append_left (suc k) (x ∷ xs) ys h = ap (◌∷◌ x) (take-append_left k xs ys (omega arith))

pub length-map {ℓ κ} :
    {A : Type ℓ} {B : Type κ} (f : A → B) (xs : List A) → length (map f xs) ≡ length xs
length-map f [] = refl
length-map f (x ∷ xs) = ap suc (length-map f xs)

module _ {D : Type 0} (s : Scalar D) where
  -- the nodes before the first larger value, and those from there on
  abbrev front : IndexVal D → List (Ptr × IndexVal D) → List (Ptr × IndexVal D)
  front iv [] = []
  front iv ((p, x) ∷ xs) = if val_lt s iv x then [] else (p, x) ∷ front iv xs

  abbrev back : IndexVal D → List (Ptr × IndexVal D) → List (Ptr × IndexVal D)
  back iv [] = []
  back iv ((p, x) ∷ xs) = if val_lt s iv x then (p, x) ∷ xs else back iv xs

  front-append-back :
      (iv : IndexVal D) (xs : List (Ptr × IndexVal D)) → front iv xs ++ back iv xs ≡ xs
  front-append-back iv [] = refl
  front-append-back iv ((p, x) ∷ xs) = ground (arith, front-append-back iv xs)

  items-insert :
      (n : Ptr) (iv : IndexVal D) (xs : List (Ptr × IndexVal D))
      → items (front iv xs ++ (n, iv) ∷ back iv xs) ≡ ordered_insert s iv (items xs)
  unfolding ordered_insert
  items-insert n iv [] = refl
  items-insert n iv ((p, x) ∷ xs) = ground (arith, items-insert n iv xs)

  abbrev stop : NnVector D → IndexVal D → List (Ptr × IndexVal D) → Run (NnVector D × Bool)
  stop v iv [] = ok (v, false)
  stop v iv ((p, x) ∷ xs) = do w ← insert_before v p iv; ok (w, true)

  eval_loop-stop :
      (fuel : ℕ) (v : NnVector D) (iv : IndexVal D) (a : Ptr) (xs : List (Ptr × IndexVal D))
      → Chain v.mem a xs v.sentinel
      → has v.sentinel xs ≡ false
      → length xs < fuel
      → eval_loop s fuel v (first xs v.sentinel) iv ≡ stop v iv (back iv xs)
  unfolding eval_loop get_data get_next
  eval_loop-stop zero v iv a xs c h f = absurd (omega arith)
  eval_loop-stop (suc fuel) v iv a [] c h f = ground arith
  eval_loop-stop (suc fuel) v iv a ((p, x) ∷ xs) c h f =
      let next : v.mem.next p ≡ first xs v.sentinel = Chain-first v.mem p v.sentinel xs c.4 in
      ground (arith, next, eval_loop-stop fuel v iv p xs c.4)

  -- the state before the size is tested: at most one node too many, and the right first `k`
  abbrev pub Grown : NnVector D → IndexVal D → List (Ptr × IndexVal D) → NnVector D → Type 0
  Grown v iv xs w =
      (ys : List (Ptr × IndexVal D)) × Holds w ys
      × (take v.k (items ys) ≡ take v.k (ordered_insert s iv (items xs)))
      × (length ys ≤ suc v.k)
      × (w.k ≡ v.k)

  Grown-put :
      (v : NnVector D) (iv : IndexVal D) (xs : List (Ptr × IndexVal D))
      → Holds v xs
      → length xs ≤ v.k
      → Grown v iv xs (put v (first (back iv xs) v.sentinel) iv)
  Grown-put v iv xs h small =
      let split = front-append-back iv xs in
      (
        front iv xs ++ (v.mem.fresh, iv) ∷ back iv xs,
        Holds-put v iv (front iv xs) (back iv xs) (subst (Holds v) (sym split) h),
        ap (take v.k) (items-insert v.mem.fresh iv xs),
        omega (
          arith,
          length-append (front iv xs) ((v.mem.fresh, iv) ∷ back iv xs),
          length-append (front iv xs) (back iv xs),
          ap length split,
        ),
        refl,
      )

  -- no larger value, and no room
  Grown-full :
      (v : NnVector D) (iv : IndexVal D) (xs : List (Ptr × IndexVal D))
      → Holds v xs
      → length xs ≡ v.k
      → back iv xs ≡ []
      → Grown v iv xs v
  Grown-full v iv xs h full none_larger =
      let split : front iv xs ≡ xs =
        sym (append-nil (front iv xs)) ∙ (rw none_larger at (front-append-back iv xs)) in
      let end : ordered_insert s iv (items xs) ≡ items xs ++ iv ∷ [] =
        sym (items-insert 0 iv xs)
        ∙ (rw (none_larger, split) (map-append (λ c. c.1) xs ((0, iv) ∷ []))) in
      (
        xs,
        h,
        rw end (
            sym (
              take-append_left v.k (items xs) (iv ∷ []) (omega (arith, length-map (λ c. c.1) xs)))),
        omega arith,
        refl,
      )

  eval_insert-empty :
      (v : NnVector D) (iv : IndexVal D)
      → (v.size == 0) ≡ true
      → v.mem.prev v.sentinel ≡ v.sentinel
      → v.mem.live v.sentinel ≡ true
      → (v.sentinel == v.mem.fresh) ≡ false
      → eval_insert s v iv ≡ ok (put v v.sentinel iv)
  unfolding eval_insert
  eval_insert-empty v iv none_yet alone live apart = rw alone (ground arith)

  -- what follows the walk
  abbrev finish : NnVector D → IndexVal D → NnVector D × Bool → Run (NnVector D)
  finish v iv (w, insert_flag) =
      if ltb w.size w.k && not insert_flag
      then push_back (record w { mem = new_node w.mem iv }) w.mem.fresh
      else ok w

  eval_insert-more :
      (v : NnVector D) (iv : IndexVal D)
      → (v.size == 0) ≡ false
      → v.mem.live v.sentinel ≡ true
      → eval_insert s v iv ≡ (eval_loop s (v.size + 1) v (v.mem.next v.sentinel) iv >>= finish v iv)
  unfolding eval_insert
  eval_insert-more v iv more live = rw (more, live)

  finish-Grown :
      (v : NnVector D) (iv : IndexVal D) (xs bs : List (Ptr × IndexVal D))
      → Holds v xs
      → length xs ≤ v.k
      → (v.size == 0) ≡ false
      → back iv xs ≡ bs
      → Returns (Grown v iv xs) (stop v iv bs >>= finish v iv)
  finish-Grown v iv xs [] h small more e = elim (Bool-cases (ltb v.size v.k)) [
    | inl room ↦
        rw (room, push_back-put v iv xs h more)
          (subst (λ q. Grown v iv xs (put v q iv)) (ap (λ b. first b v.sentinel) e)
            (Grown-put v iv xs h small))
    | inr full ↦ rw full (Grown-full v iv xs h (ground (arith, h.count)) e)
  ]
  finish-Grown v iv xs ((p, x) ∷ bs) h small more e =
      let linked : insert_before v p iv ≡ ok (put v p iv) =
        subst (λ q. insert_before v q iv ≡ ok (put v q iv)) (ap (λ b. first b v.sentinel) e)
          (insert_before-put v iv (front iv xs) (back iv xs)
            (subst (Holds v) (sym (front-append-back iv xs)) h)) in
      rw linked (
        ground (
          arith,
          subst (λ q. Grown v iv xs (put v q iv)) (ap (λ b. first b v.sentinel) e)
              (Grown-put v iv xs h small),
        ))

  pub eval_insert-Grown :
      (v : NnVector D) (iv : IndexVal D) (xs : List (Ptr × IndexVal D))
      → Holds v xs
      → length xs ≤ v.k
      → Returns (Grown v iv xs) (eval_insert s v iv)
  eval_insert-Grown v iv [] h small =
      rw
        (eval_insert-empty v iv (ground (arith, h.count)) h.chain.1 h.sentinel_live
          (ground (arith, h.sentinel_given)))
        (Grown-put v iv [] h small)
  eval_insert-Grown v iv (c ∷ xs) h small =
      rw
        (
          eval_insert-more v iv (ground (arith, h.count)) h.sentinel_live,
          Chain-first v.mem v.sentinel v.sentinel (c ∷ xs) h.chain,
          eval_loop-stop (v.size + 1) v iv v.sentinel (c ∷ xs) h.chain h.apart
              (omega (arith, h.count)),
        )
        (finish-Grown v iv (c ∷ xs) (back iv (c ∷ xs)) h small (ground (arith, h.count)) refl)
