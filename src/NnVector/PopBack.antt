-- ===== src/NnVector/PopBack.antt =====
-- `pop_back` unlinks the last node of the list.
use monya.Prelude.{
  ◌-◌, ◌≡◌, refl, true, false, List, [], ◌∷◌, ◌++◌, arith, ◌==◌, length-append, ok, Returns,
}
use monya.IndexVector.{IndexVal}
use monya.NnVector.{Ptr, null, Mem, NnVector, pop_back}
use monya.NnVector.Holds.{Holds, Given-append, live-last}
use monya.NnVector.Chain.{Chain, Distinct, has, removed, Chain-last, Chain-removed, has-append}

module _ {D : Type 0} where
  pub pop_back-removed :
      (v : NnVector D) (p : Ptr)
      → (v.size == 0) ≡ false
      → v.mem.prev v.sentinel ≡ p
      → (p == v.sentinel) ≡ false
      → v.mem.live v.sentinel ≡ true
      → v.mem.live p ≡ true
      → v.mem.live (v.mem.prev p) ≡ true
      → pop_back v
        ≡ ok (record v { mem = removed v.mem p v.sentinel; size = v.size - 1; cache_node = null })
  unfolding pop_back
  pop_back-removed v p more last_is other l m n = rw (more, l, last_is, other) (ground arith)

  pub Distinct-init :
      (ys : List (Ptr × IndexVal D)) (p : Ptr) (x : IndexVal D)
      → Distinct (ys ++ (p, x) ∷ [])
      → Distinct ys × (has p ys ≡ false)
  Distinct-init [] p x d = (tt, refl)
  Distinct-init ((q, y) ∷ ys) p x d =
      let rest : Distinct ys × (has p ys ≡ false) = Distinct-init ys p x d.1 in
      (
        (ground (arith, has-append q ys ((p, x) ∷ [])), rest.0),
        ground (arith, has-append q ys ((p, x) ∷ [])),
      )

  pub live-back :
      (m : Mem D) (a s : Ptr) (ys : List (Ptr × IndexVal D)) (p : Ptr) (x : IndexVal D)
      → Chain m a (ys ++ (p, x) ∷ []) s
      → m.live p ≡ true
  live-back m a s [] p x c = c.3
  live-back m a s ((q, y) ∷ ys) p x c = live-back m q s ys p x c.4

  pub Chain-prev :
      (m : Mem D) (a s : Ptr) (ys : List (Ptr × IndexVal D)) (p : Ptr) (x : IndexVal D)
      → Chain m a (ys ++ (p, x) ∷ []) s
      → m.prev s ≡ p
  Chain-prev m a s [] p x c = c.4.1
  Chain-prev m a s ((q, y) ∷ ys) p x c = Chain-prev m q s ys p x c.4

  -- `pop_back` drops the last node.
  pub pop_back-Holds :
      (v : NnVector D) (ys : List (Ptr × IndexVal D)) (p : Ptr) (x : IndexVal D)
      → Holds v (ys ++ (p, x) ∷ [])
      → Returns (λ w. Holds w ys × (w.k ≡ v.k)) (pop_back v)
  pop_back-Holds v ys p x h =
      let len = length-append ys ((p, x) ∷ []) in
      let other : (p == v.sentinel) ≡ false =
        ground (arith, h.apart, has-append v.sentinel ys ((p, x) ∷ [])) in
      let apart : has v.sentinel ys ≡ false =
        ground (arith, h.apart, has-append v.sentinel ys ((p, x) ∷ [])) in
      let back = Chain-last v.mem v.sentinel v.sentinel ys ((p, x) ∷ []) h.chain in
      let d = Distinct-init ys p x h.distinct in
      let g = Given-append v.mem.fresh ys ((p, x) ∷ []) h.given in
      rw
        (pop_back-removed v p (ground (arith, h.count, len))
          (Chain-prev v.mem v.sentinel v.sentinel ys p x h.chain) other h.sentinel_live
          (live-back v.mem v.sentinel v.sentinel ys p x h.chain)
          (rw back
            (live-last v.mem v.sentinel v.sentinel ys ((p, x) ∷ []) h.chain h.sentinel_live)))
        (
          record {
            chain =
                Chain-removed v.mem v.sentinel v.sentinel p x ys h.chain h.distinct h.apart h.apart;
            distinct = d.0;
            apart = apart;
            given = g.0;
            sentinel_pos = h.sentinel_pos;
            sentinel_given = h.sentinel_given;
            sentinel_live = ground (arith, h.sentinel_live, other);
            count = omega (arith, h.count, len);
          },
          refl,
        )
