-- ===== src/NnVector/Refinement.antt =====
-- `NNVector` against its contract: it stands for a list of at most `k` items, and `eval` keeps the
-- first `k` of the ordered insertion.
use mathlib.Core.List.{append-nil, map-append}
use monya.Prelude.{
  ℕ, zero, suc, ◌≤◌, ◌<◌, ◌≡◌, refl, sym, ap, subst, ◌∙◌, ◌⊎◌, inl, inr, Option, none, some, List,
  [], ◌∷◌, ◌++◌, Perm, arith, if◌then◌else◌, Bool-cases, length, take, length-append, Run, ok,
  ◌>>=◌, Returns, bind-Returns, Returns-mono, take-length, Scalar, IsOrdered, ltb,
}
use monya.IndexVector.{IndexVal}
use monya.IndexVector.Order.{
  ordered_insert, insert_all, kept, kept-insert_all, IsSorted, insert_all-IsSorted, insert_all-perm,
}
use monya.NnVector.{Ptr, null, NnVector, pop_back, invalidate_cache, create, eval_insert, eval}
use monya.NnVector.Holds.{Holds}
use monya.NnVector.Eval.{eval_insert-Grown, take-append_left, length-map}
use monya.NnVector.Chain.{items}
use monya.NnVector.PopBack.{pop_back-Holds}

module _ {D : Type 0} where
  -- the address at a position
  abbrev pub address : List (Ptr × IndexVal D) → ℕ → Option Ptr
  address [] i = none
  address ((p, x) ∷ xs) zero = some p
  address ((p, x) ∷ xs) (suc i) = address xs i

  -- what the vector stands for: at most `k` items, and a cache that is empty or points at the node
  -- of its position
  pub record Represents (v : NnVector D) (l : List (IndexVal D)) : Type 0 where
    pub cells : List (Ptr × IndexVal D)
    pub holds : Holds v cells
    pub contents : items cells ≡ l
    pub small : length l ≤ v.k
    pub cached : (v.cache_node ≡ null) ⊎ (address cells v.cache_index ≡ some v.cache_node)

  split_last :
      (y : Ptr × IndexVal D) (ys : List (Ptr × IndexVal D))
      → (zs : List (Ptr × IndexVal D)) × (p : Ptr) × (x : IndexVal D) × (y ∷ ys ≡ zs ++ (p, x) ∷ [])
  split_last (p, x) [] = ([], p, x, refl)
  split_last y (z ∷ ys) = let (zs, p, x, e) = split_last z ys in (y ∷ zs, p, x, ap (◌∷◌ y) e)

  Holds-invalidate :
      (v : NnVector D) (xs : List (Ptr × IndexVal D)) → Holds v xs → Holds (invalidate_cache v) xs
  unfolding invalidate_cache
  Holds-invalidate v xs h = record {
    chain = h.chain;
    distinct = h.distinct;
    apart = h.apart;
    given = h.given;
    sentinel_pos = h.sentinel_pos;
    sentinel_given = h.sentinel_given;
    sentinel_live = h.sentinel_live;
    count = h.count;
  }

  -- the end of `eval`
  abbrev shrink : NnVector D → Run (NnVector D)
  shrink w = do w ← if ltb w.k w.size then pop_back w else ok w; ok (invalidate_cache w)

  Represents-invalidate :
      (w : NnVector D) (ys : List (Ptr × IndexVal D))
      → Holds w ys
      → length ys ≤ w.k
      → Represents (invalidate_cache w) (items ys)
  unfolding invalidate_cache
  Represents-invalidate w ys h small = record {
    cells = ys;
    holds = Holds-invalidate w ys h;
    contents = refl;
    small = omega (arith, length-map (λ (c : Ptr × IndexVal D). c.1) ys);
    cached = inl refl;
  }

  take-init :
      (k : ℕ) (zs : List (Ptr × IndexVal D)) (p : Ptr) (x : IndexVal D)
      → length zs ≡ k
      → items zs ≡ take k (items (zs ++ (p, x) ∷ []))
  take-init k zs p x e =
      let len = length-map (λ (c : Ptr × IndexVal D). c.1) zs in
      rw (map-append (λ c. c.1) zs ((p, x) ∷ [])) (
        sym (
          take-append_left k (items zs) (x ∷ []) (omega (arith, len))
          ∙ take-length k (items zs) (omega (arith, len))))

  -- one node too many
  shrink_over :
      (w : NnVector D) (ys : List (Ptr × IndexVal D))
      → Holds w ys
      → length ys ≤ suc w.k
      → w.k < length ys
      → Returns
          (λ u. Represents u (take w.k (items ys)) × (u.k ≡ w.k))
          (pop_back w >>= λ w. ok (invalidate_cache w))
  unfolding invalidate_cache
  shrink_over w [] h room over = absurd (omega arith)
  shrink_over w (y ∷ ys) h room over =
      let (zs, p, x, e) = split_last y ys in
      let kept : items zs ≡ take w.k (items (y ∷ ys)) =
        take-init w.k zs p x (omega (arith, ap length e, length-append zs ((p, x) ∷ [])))
        ∙ ap (λ l. take w.k (items l)) (sym e) in
      bind-Returns (λ u. Represents u (take w.k (items (y ∷ ys))) × (u.k ≡ w.k)) (pop_back w)
        (λ w. ok (invalidate_cache w)) (pop_back-Holds w zs p x (subst (Holds w) e h))
        λ u (hu, ku). (
          subst (Represents (invalidate_cache u)) kept (
              Represents-invalidate u zs hu
                (omega (arith, ku, ap length e, length-append zs ((p, x) ∷ [])))),
          ku,
        )

  shrink-Represents :
      (w : NnVector D) (ys : List (Ptr × IndexVal D))
      → Holds w ys
      → length ys ≤ suc w.k
      → Returns (λ u. Represents u (take w.k (items ys)) × (u.k ≡ w.k)) (shrink w)
  unfolding invalidate_cache
  shrink-Represents w ys h room = elim (Bool-cases (ltb w.k w.size)) [
    | inl over ↦ rw over (shrink_over w ys h room (ground (arith, h.count)))
    | inr fits ↦
        let short : length ys ≤ w.k = ground (arith, h.count) in
        rw fits (
          subst (Represents (invalidate_cache w))
              (sym (
                take-length w.k (items ys)
                  (omega (arith, length-map (λ (c : Ptr × IndexVal D). c.1) ys))))
              (Represents-invalidate w ys h short),
          refl,
        )
  ]

module _ {D : Type 0} (s : Scalar D) where
  -- `eval` keeps the first `k` of the ordered insertion, on every branch.
  pub eval-Represents :
      (v : NnVector D) (iv : IndexVal D) (l : List (IndexVal D))
      → Represents v l
      → Returns (λ w. Represents w (take v.k (ordered_insert s iv l)) × (w.k ≡ v.k)) (eval s v iv)
  unfolding eval
  eval-Represents v iv l r =
      let small : length r.cells ≤ v.k = omega (
        arith,
        r.small,
        ap length r.contents,
        length-map (λ (c : Ptr × IndexVal D). c.1) r.cells,
      ) in
      bind-Returns (λ w. Represents w (take v.k (ordered_insert s iv l)) × (w.k ≡ v.k))
        (eval_insert s v iv) shrink (eval_insert-Grown s v iv r.cells r.holds small)
        λ w (ys, h, e, room, ke).
          Returns-mono (λ w. Represents w (take v.k (ordered_insert s iv l)) × (w.k ≡ v.k))
            (shrink w) (shrink-Represents w ys h (omega (arith, ke)))
            λ u (ru, ku). (
              subst (Represents u)
                  (ap (λ n. take n (items ys)) ke
                    ∙ e
                    ∙ ap (λ m. take v.k (ordered_insert s iv m)) r.contents)
                  ru,
              ku ∙ ke,
            )

  -- `eval` on one item after the other
  unfoldable pub eval_all : NnVector D → List (IndexVal D) → Run (NnVector D)
  eval_all v [] = ok v
  eval_all v (iv ∷ ivs) = do w ← eval s v iv; eval_all w ivs

  pub eval_all-kept :
      (v : NnVector D) (l ivs : List (IndexVal D))
      → Represents v l
      → Returns (λ w. Represents w (kept s v.k l ivs) × (w.k ≡ v.k)) (eval_all v ivs)
  unfolding eval_all kept
  eval_all-kept v l [] r = (r, refl)
  eval_all-kept v l (iv ∷ ivs) r =
      bind-Returns (λ w. Represents w (kept s v.k l (iv ∷ ivs)) × (w.k ≡ v.k)) (eval s v iv)
        (λ w. eval_all w ivs) (eval-Represents v iv l r)
        λ w (rw', kw).
          Returns-mono (λ u. Represents u (kept s v.k l (iv ∷ ivs)) × (u.k ≡ v.k)) (eval_all w ivs)
            (eval_all-kept w _ ivs rw')
            λ u (ru, ku). (
              subst (λ n. Represents u (kept s n (take v.k (ordered_insert s iv l)) ivs)) kw ru,
              ku ∙ kw,
            )

  pub create-Represents : (k : ℕ) → Represents (create s k) []
  unfolding create
  create-Represents k = record {
    cells = [];
    holds = record {
      chain = (refl, refl);
      distinct = tt;
      apart = refl;
      given = tt;
      sentinel_pos = omega arith;
      sentinel_given = omega arith;
      sentinel_live = refl;
      count = refl;
    };
    contents = refl;
    small = omega arith;
    cached = inl refl;
  }

  -- A fresh vector fed any samples, in any order: the calls return, and the list holds the first `k`
  -- of the samples in the order of their distances.
  pub eval_all-nearest :
      (o : IsOrdered s) (k : ℕ) (ivs : List (IndexVal D))
      → Returns
          (λ w.
            (all : List (IndexVal D)) × Represents w (take k all) × IsSorted s all × Perm all ivs)
          (eval_all (create s k) ivs)
  unfolding create
  eval_all-nearest o k ivs =
      let all = insert_all s [] ivs in
      let same : Perm all ivs = subst (Perm all) (append-nil ivs) (insert_all-perm s [] ivs) in
      Returns-mono _ (eval_all (create s k) ivs)
        (eval_all-kept (create s k) [] ivs (create-Represents k))
        λ w (r, e). (
          all,
          subst (Represents w) (kept-insert_all s k ivs) r,
          insert_all-IsSorted s o [] ivs tt,
          same,
        )
