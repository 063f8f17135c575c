-- ===== src/NnVector/Access.antt =====
-- `operator[]` with its cache, and the two walks that do not advance.
use native.Mathlib.Nat.{zero-add, suc-add}
use native.Mathlib.Numerals.{add-one}
use monya.Prelude.{
  ℕ, zero, suc, ◌+◌, ◌-◌, ◌%◌, ◌^◌, ◌≤◌, ◌<◌, ◌≡◌, refl, sym, ap, subst, ◌∙◌, ◌⊎◌, inl, inr, true,
  false, some, List, [], ◌∷◌, arith, ◌==◌, Bool-cases, length, get_elem?, leb, ok, throw,
  runtime_error, Returns, ltb,
}
use monya.IndexVector.{IndexVal}
use monya.NnVector.{Ptr, null, Mem, NnVector, get_next, get_data, update_cache}
use monya.NnVector.Reads.{advance, locate, at}
use monya.NnVector.Chain.{Chain, items}
use monya.NnVector.Holds.{Holds}
use monya.NnVector.Eval.{length-map}
use monya.NnVector.Refinement.{Represents, address}

module _ {D : Type 0} where
  advance_from :
      (m : Mem D) (a s : Ptr) (xs : List (Ptr × IndexVal D)) (i : ℕ) (p : Ptr)
      → Chain m a xs s
      → m.live a ≡ true
      → address xs i ≡ some p
      → advance (suc i) m a ≡ ok p
  unfolding advance get_next
  advance_from m a s [] i p c l e = cc
  advance_from m a s ((q, x) ∷ xs) zero p c l e = rw (l, c.0) (ground arith)
  advance_from m a s ((q, x) ∷ xs) (suc i) p c l e =
      rw (l, c.0) (advance_from m q s xs i p c.4 c.3 e)

  advance_between :
      (m : Mem D) (a s : Ptr) (xs : List (Ptr × IndexVal D)) (j n : ℕ) (q p : Ptr)
      → Chain m a xs s
      → address xs j ≡ some q
      → address xs (j + n) ≡ some p
      → advance n m q ≡ ok p
  unfolding advance get_next
  advance_between m a s [] j n q p c e f = cc
  advance_between m a s ((r, x) ∷ xs) zero zero q p c e f = ground arith
  advance_between m a s ((r, x) ∷ xs) zero (suc n) q p c e f =
      let same : r ≡ q = ground arith in
      rw (← same) (advance_from m r s xs n p c.4 c.3 (rw zero-add at f))
  advance_between m a s ((r, x) ∷ xs) (suc j) n q p c e f =
      advance_between m r s xs j n q p c.4 e
        (subst (λ k. address ((r, x) ∷ xs) k ≡ some p) (suc-add j n) f)

  -- the node at a position in range
  abbrev At : Mem D → List (Ptr × IndexVal D) → ℕ → Type 0
  At m xs i =
      (p : Ptr) × (address xs i ≡ some p)
      × (m.live p ≡ true)
      × (get_elem? (items xs) i ≡ some (m.value p))

  nth_node :
      (m : Mem D) (a s : Ptr) (xs : List (Ptr × IndexVal D)) (i : ℕ)
      → Chain m a xs s
      → i < length xs
      → At m xs i
  nth_node m a s [] i c h = absurd (omega arith)
  nth_node m a s ((p, x) ∷ xs) zero c h = (p, refl, c.3, ground arith)
  nth_node m a s ((p, x) ∷ xs) (suc i) c h = nth_node m p s xs i c.4 (omega arith)

  address-lt :
      (xs : List (Ptr × IndexVal D)) (i : ℕ) (p : Ptr) → address xs i ≡ some p → i < length xs
  address-lt [] i p e = cc
  address-lt ((q, x) ∷ xs) zero p e = omega arith
  address-lt ((q, x) ∷ xs) (suc i) p e = omega (arith, address-lt xs i p e)

  get_next-advance : (m : Mem D) (q p : Ptr) → advance 1 m q ≡ ok p → get_next m q ≡ ok p
  unfolding advance get_next
  get_next-advance m q p e = ground arith

  -- the four ways that `operator[]` goes
  locate_cases :
      (v : NnVector D) (i : ℕ) (p : Ptr)
      → advance (i + 1) v.mem v.sentinel ≡ ok p
      → ((v.cache_node == null) ≡ false
          → ((v.cache_index == (i + 2 ^ 64 - 1) % 2 ^ 64) ≡ true
              → get_next v.mem v.cache_node ≡ ok p)
            × (leb v.cache_index i ≡ true → advance (i - v.cache_index) v.mem v.cache_node ≡ ok p))
      → locate v i ≡ ok p
  unfolding locate
  locate_cases v i p cold warm = elim (Bool-cases (v.cache_node == null)) [
    | inl none_cached ↦ rw none_cached cold
    | inr some_cached ↦
        let ways = warm some_cached in
        rw some_cached (elim (Bool-cases (v.cache_index == (i + 2 ^ 64 - 1) % 2 ^ 64)) [
          | inl hit ↦ rw hit (ways.0 hit)
          | inr miss ↦ rw miss (elim (Bool-cases (leb v.cache_index i)) [
            | inl ahead ↦ rw ahead (ways.1 ahead)
            | inr behind ↦ rw behind cold
          ])
        ])
  ]

  pub locate-address :
      (v : NnVector D) (xs : List (Ptr × IndexVal D)) (i : ℕ) (p : Ptr)
      → Holds v xs
      → length xs < 2 ^ 64
      → (v.cache_node ≡ null) ⊎ (address xs v.cache_index ≡ some v.cache_node)
      → address xs i ≡ some p
      → locate v i ≡ ok p
  locate-address v xs i p h w c e =
      let below : i < length xs = address-lt xs i p e in
      let cold : advance (i + 1) v.mem v.sentinel ≡ ok p =
        rw add-one (advance_from v.mem v.sentinel v.sentinel xs i p h.chain h.sentinel_live e) in
      locate_cases v i p cold λ warm.
        let cached : address xs v.cache_index ≡ some v.cache_node = ground arith in
        let cached_below : v.cache_index < length xs =
          address-lt xs v.cache_index v.cache_node cached in
        let between : (n : ℕ) → v.cache_index + n ≡ i → advance n v.mem v.cache_node ≡ ok p =
          λ n eq.
            advance_between v.mem v.sentinel v.sentinel xs v.cache_index n v.cache_node p h.chain
              cached (rw eq e) in
        (
          λ hit. get_next-advance v.mem v.cache_node p (between 1 (ground arith)),
          λ le. between (i - v.cache_index) (ground arith),
        )

  Holds-update_cache :
      (v : NnVector D) (xs : List (Ptr × IndexVal D)) (i : ℕ) (p : Ptr)
      → Holds v xs
      → Holds (update_cache v i p) xs
  unfolding update_cache
  Holds-update_cache v xs i p h = record {
    chain = h.chain;
    distinct = h.distinct;
    apart = h.apart;
    given = h.given;
    sentinel_pos = h.sentinel_pos;
    sentinel_given = h.sentinel_given;
    sentinel_live = h.sentinel_live;
    count = h.count;
  }

  -- In range, `operator[]` returns the item at the position, whatever the cache holds, and leaves a
  -- vector with the same contents.
  pub at-get_elem? :
      (v : NnVector D) (l : List (IndexVal D)) (i : ℕ)
      → Represents v l
      → length l < 2 ^ 64
      → i < length l
      → Returns (λ (w, x). Represents w l × (get_elem? l i ≡ some x)) (at v i)
  unfolding at get_data update_cache
  at-get_elem? v l i r w h =
      let len : length r.cells ≡ length l =
        sym (length-map (λ (c : Ptr × IndexVal D). c.1) r.cells) ∙ ap length r.contents in
      let (p, e, live, x) =
        nth_node v.mem v.sentinel v.sentinel r.cells i r.holds.chain (omega (arith, len)) in
      let found : locate v i ≡ ok p =
        locate-address v r.cells i p r.holds (omega (arith, len)) r.cached e in
      let inside : ltb v.size ((i + 1) % 2 ^ 64) ≡ false = ground (arith, r.holds.count, len) in
      rw (inside, found, live)
        (
          record {
            cells = r.cells;
            holds = Holds-update_cache v r.cells i p r.holds;
            contents = r.contents;
            small = r.small;
            cached = inr e;
          },
          subst (λ m. get_elem? m i ≡ some (v.mem.value p)) r.contents x,
        )

  -- Out of range it throws, unless `index + 1` wraps.
  pub at_out_of_range :
      (v : NnVector D) (l : List (IndexVal D)) (i : ℕ)
      → Represents v l
      → length l ≤ i
      → i + 1 < 2 ^ 64
      → at v i ≡ throw runtime_error
  unfolding at
  at_out_of_range v l i r h w =
      let len : length r.cells ≡ length l =
        sym (length-map (λ (c : Ptr × IndexVal D). c.1) r.cells) ∙ ap length r.contents in
      let outside : ltb v.size ((i + 1) % 2 ^ 64) ≡ true = ground (arith, r.holds.count, len) in
      rw outside
