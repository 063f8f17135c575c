-- ===== src/NnVector/Holds.antt =====
-- The invariant that ties a vector to its chain of nodes, kept when a node is linked in.
use mathlib.Core.Path.{fun_ext}
use mathlib.Core.List.{append-nil}
use monya.Prelude.{
  ℕ, suc, ◌+◌, ◌<◌, ◌≡◌, sym, ap, subst, ◌∙◌, true, false, List, [], ◌∷◌, ◌++◌, arith, ◌==◌, length,
  length-append, ok,
}
use monya.IndexVector.{IndexVal}
use monya.NnVector.{Ptr, null, update, Mem, NnVector, new_node, push_back, insert_before}
use monya.NnVector.Chain.{
  Chain, Distinct, Given, has, first, last, inserted, Chain-last, Chain-inserted, Given-absent,
  Given-mono, has-append,
}

update_comm :
    (f : Ptr → Ptr) (p q a b : Ptr)
    → (p == q) ≡ false
    → update (update f p a) q b ≡ update (update f q b) p a
update_comm f p q a b h = fun_ext λ r. ground arith

module _ {D : Type 0} where
  -- the vector's nodes, in order
  pub record Holds (v : NnVector D) (xs : List (Ptr × IndexVal D)) : Type 0 where
    pub chain : Chain v.mem v.sentinel xs v.sentinel
    pub distinct : Distinct xs
    pub apart : has v.sentinel xs ≡ false
    pub given : Given v.mem.fresh xs
    pub sentinel_pos : 0 < v.sentinel
    pub sentinel_given : v.sentinel < v.mem.fresh
    pub sentinel_live : v.mem.live v.sentinel ≡ true
    pub count : v.size ≡ length xs

  abbrev pub put : NnVector D → Ptr → IndexVal D → NnVector D
  put v curr iv = record v { mem = inserted v.mem curr iv; size = v.size + 1 }

  pub Given-last : (n a : ℕ) (ys : List (Ptr × IndexVal D)) → a < n → Given n ys → last a ys < n
  Given-last n a [] h g = h
  Given-last n a ((p, v) ∷ ys) h g = Given-last n p ys g.1 g.2

  pub Given-append :
      (n : ℕ) (ys zs : List (Ptr × IndexVal D)) → Given n (ys ++ zs) → Given n ys × Given n zs
  Given-append n [] zs g = (tt, g)
  Given-append n ((p, v) ∷ ys) zs g =
      let r : Given n ys × Given n zs = Given-append n ys zs g.2 in ((g.0, g.1, r.0), r.1)

  Given-join :
      (n : ℕ) (ys zs : List (Ptr × IndexVal D)) → Given n ys → Given n zs → Given n (ys ++ zs)
  Given-join n [] zs g h = h
  Given-join n ((p, v) ∷ ys) zs g h = (g.0, g.1, Given-join n ys zs g.2 h)

  Given-first : (n s : ℕ) (zs : List (Ptr × IndexVal D)) → s < n → Given n zs → first zs s < n
  Given-first n s [] h g = h
  Given-first n s ((p, v) ∷ zs) h g = g.1

  -- the ends of a chain with live ends are live
  pub live-last :
      (m : Mem D) (a s : Ptr) (ys zs : List (Ptr × IndexVal D))
      → Chain m a (ys ++ zs) s
      → m.live a ≡ true
      → m.live (last a ys) ≡ true
  live-last m a s [] zs c h = h
  live-last m a s ((p, v) ∷ ys) zs c h = live-last m p s ys zs c.4 c.3

  live-first :
      (m : Mem D) (a s : Ptr) (zs : List (Ptr × IndexVal D))
      → Chain m a zs s
      → m.live s ≡ true
      → m.live (first zs s) ≡ true
  live-first m a s [] c h = h
  live-first m a s ((p, v) ∷ zs) c h = c.3

  Chain-drop :
      (m : Mem D) (a s : Ptr) (ys zs : List (Ptr × IndexVal D))
      → Chain m a (ys ++ zs) s
      → Chain m (last a ys) zs s
  Chain-drop m a s [] zs c = c
  Chain-drop m a s ((p, v) ∷ ys) zs c = Chain-drop m p s ys zs c.4

  Distinct-insert :
      (n : Ptr) (iv : IndexVal D) (ys zs : List (Ptr × IndexVal D))
      → Distinct (ys ++ zs)
      → has n (ys ++ zs) ≡ false
      → Distinct (ys ++ (n, iv) ∷ zs)
  Distinct-insert n iv [] zs d h = (h, d)
  Distinct-insert n iv ((p, v) ∷ ys) zs d h = (
    ground (arith, has-append p ys zs, has-append p ys ((n, iv) ∷ zs)),
    Distinct-insert n iv ys zs d.1 (ground arith),
  )

  pub Holds-put :
      (v : NnVector D) (iv : IndexVal D) (ys zs : List (Ptr × IndexVal D))
      → Holds v (ys ++ zs)
      → Holds (put v (first zs v.sentinel) iv) (ys ++ (v.mem.fresh, iv) ∷ zs)
  Holds-put v iv ys zs h =
      let absent : has v.mem.fresh (ys ++ zs) ≡ false =
        Given-absent v.mem.fresh v.mem.fresh (ys ++ zs) h.given (omega arith) in
      let parts =
        Given-append (suc v.mem.fresh) ys zs
          (Given-mono v.mem.fresh (suc v.mem.fresh) (ys ++ zs) h.given (omega arith)) in
      record {
        chain =
            Chain-inserted v.mem v.sentinel v.sentinel iv ys zs h.chain h.distinct h.apart h.apart
              h.given h.sentinel_given h.sentinel_given;
        distinct = Distinct-insert v.mem.fresh iv ys zs h.distinct absent;
        apart = ground (
          arith,
          h.apart,
          h.sentinel_given,
          has-append v.sentinel ys zs,
          has-append v.sentinel ys ((v.mem.fresh, iv) ∷ zs),
        );
        given =
            Given-join (suc v.mem.fresh) ys ((v.mem.fresh, iv) ∷ zs) parts.0
              (omega (arith, h.sentinel_given), omega arith, parts.1);
        sentinel_pos = h.sentinel_pos;
        sentinel_given = omega (arith, h.sentinel_given);
        sentinel_live = ground (arith, h.sentinel_live);
        count =
            omega (arith, h.count, length-append ys zs, length-append ys ((v.mem.fresh, iv) ∷ zs));
      }

  -- The three ways in which the code links a node come to the same.
  insert_before-ok :
      (v : NnVector D) (iv : IndexVal D) (c : Ptr)
      → (c == v.mem.fresh) ≡ false
      → (v.mem.prev c == v.mem.fresh) ≡ false
      → v.mem.live c ≡ true
      → v.mem.live (v.mem.prev c) ≡ true
      → insert_before v c iv ≡ ok (put v c iv)
  unfolding insert_before
  insert_before-ok v iv c h k l m = ground arith

  pub insert_before-put :
      (v : NnVector D) (iv : IndexVal D) (ys zs : List (Ptr × IndexVal D))
      → Holds v (ys ++ zs)
      → insert_before v (first zs v.sentinel) iv ≡ ok (put v (first zs v.sentinel) iv)
  insert_before-put v iv ys zs h =
      let parts = Given-append v.mem.fresh ys zs h.given in
      let below : first zs v.sentinel < v.mem.fresh =
        Given-first v.mem.fresh v.sentinel zs h.sentinel_given parts.1 in
      let before = Chain-last v.mem v.sentinel v.sentinel ys zs h.chain in
      let before_below : last v.sentinel ys < v.mem.fresh =
        Given-last v.mem.fresh v.sentinel ys h.sentinel_given parts.0 in
      let before_live = live-last v.mem v.sentinel v.sentinel ys zs h.chain h.sentinel_live in
      insert_before-ok v iv (first zs v.sentinel) (ground arith) (rw before (ground arith))
        (live-first v.mem (last v.sentinel ys) v.sentinel zs
          (Chain-drop v.mem v.sentinel v.sentinel ys zs h.chain) h.sentinel_live)
        (rw before before_live)

  push_back-ok :
      (v : NnVector D) (iv : IndexVal D)
      → (v.size == 0) ≡ false
      → (v.sentinel == v.mem.fresh) ≡ false
      → (v.mem.prev v.sentinel == v.mem.fresh) ≡ false
      → v.mem.live v.sentinel ≡ true
      → v.mem.live (v.mem.prev v.sentinel) ≡ true
      → push_back (record v { mem = new_node v.mem iv }) v.mem.fresh
        ≡ ok (record v {
          mem = record (inserted v.mem v.sentinel iv) {
            next =
                update
                  (update (update v.mem.next v.mem.fresh null) v.mem.fresh v.sentinel)
                  (v.mem.prev v.sentinel)
                  v.mem.fresh;
          };
          size = v.size + 1;
        })
  unfolding push_back new_node
  push_back-ok v iv more h k l m = ground arith

  pub push_back-put :
      (v : NnVector D) (iv : IndexVal D) (xs : List (Ptr × IndexVal D))
      → Holds v xs
      → (v.size == 0) ≡ false
      → push_back (record v { mem = new_node v.mem iv }) v.mem.fresh ≡ ok (put v v.sentinel iv)
  push_back-put v iv xs h more =
      let chain : Chain v.mem v.sentinel (xs ++ []) v.sentinel =
        subst (λ zs. Chain v.mem v.sentinel zs v.sentinel) (sym (append-nil xs)) h.chain in
      let before : v.mem.prev v.sentinel ≡ last v.sentinel xs =
        Chain-last v.mem v.sentinel v.sentinel xs [] chain in
      let below : last v.sentinel xs < v.mem.fresh =
        Given-last v.mem.fresh v.sentinel xs h.sentinel_given h.given in
      let apart : (v.mem.prev v.sentinel == v.mem.fresh) ≡ false = rw before (ground arith) in
      let live = live-last v.mem v.sentinel v.sentinel xs [] chain h.sentinel_live in
      push_back-ok v iv more (ground (arith, h.sentinel_given)) apart h.sentinel_live
        (rw before live)
      ∙ ap
          (λ n. ok (record v {
            mem = record (inserted v.mem v.sentinel iv) { next = n };
            size = v.size + 1;
          }))
          (update_comm (update v.mem.next v.mem.fresh null) v.mem.fresh (v.mem.prev v.sentinel)
            v.sentinel v.mem.fresh (ground arith))
