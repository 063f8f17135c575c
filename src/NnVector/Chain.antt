-- ===== src/NnVector/Chain.antt =====
-- Chains of nodes: from one node the `next` pointers lead through the listed nodes to another, and
-- the `prev` pointers back. What an insertion and a removal do to a chain.
use monya.Prelude.{
  ℕ, suc, ◌≤◌, ◌<◌, ◌≡◌, refl, ap, Bool, true, false, ◌||◌, List, [], ◌∷◌, ◌++◌, map, arith,
  Bool-cases, inl, inr, ◌==◌,
}
use monya.IndexVector.{IndexVal}
use monya.NnVector.{Ptr, null, update, Mem}

module _ {D : Type 0} where
  abbrev pub has : Ptr → List (Ptr × IndexVal D) → Bool
  has a [] = false
  has a ((p, _) ∷ xs) = (a == p) || has a xs

  abbrev pub Distinct : List (Ptr × IndexVal D) → Type 0
  Distinct [] = Unit
  Distinct ((p, _) ∷ xs) = (has p xs ≡ false) × Distinct xs

  -- addresses that have been given out, and are not NULL
  abbrev pub Given : ℕ → List (Ptr × IndexVal D) → Type 0
  Given n [] = Unit
  Given n ((p, _) ∷ xs) = (0 < p) × (p < n) × Given n xs

  abbrev pub Chain : Mem D → Ptr → List (Ptr × IndexVal D) → Ptr → Type 0
  Chain m a [] s = (m.next a ≡ s) × (m.prev s ≡ a)
  Chain m a ((p, v) ∷ xs) s =
      (m.next a ≡ p) × (m.prev p ≡ a) × (m.value p ≡ v) × (m.live p ≡ true) × Chain m p xs s

  abbrev pub items : List (Ptr × IndexVal D) → List (IndexVal D)
  items = map (λ c. c.1)

  -- the first address of a chain that ends at `s`, and the last one of a chain that begins at `a`
  abbrev pub first : List (Ptr × IndexVal D) → Ptr → Ptr
  first [] s = s
  first ((p, _) ∷ xs) s = p

  abbrev pub last : Ptr → List (Ptr × IndexVal D) → Ptr
  last a [] = a
  last a ((p, _) ∷ xs) = last p xs

  abbrev pub Same : Mem D → Mem D → Ptr → Type 0
  Same m m' q =
      (m'.next q ≡ m.next q)
      × (m'.prev q ≡ m.prev q)
      × (m'.value q ≡ m.value q)
      × (m'.live q ≡ m.live q)

  pub Chain-frame :
      (m m' : Mem D) (a s : Ptr) (xs : List (Ptr × IndexVal D))
      → Chain m a xs s
      → m'.next a ≡ m.next a
      → m'.prev s ≡ m.prev s
      → ((q : Ptr) → has q xs ≡ true → Same m m' q)
      → Chain m' a xs s
  Chain-frame m m' a s [] c hn hp same = ground arith
  Chain-frame m m' a s ((p, v) ∷ xs) c hn hp same =
      let here : Same m m' p = same p (ground arith) in
      let rest : Chain m' p xs s =
        Chain-frame m m' p s xs c.4 here.0 hp (λ q h. same q (ground arith)) in
      (ground arith, ground arith, ground arith, ground arith, rest)

  pub Given-absent :
      (n q : ℕ) (xs : List (Ptr × IndexVal D)) → Given n xs → n ≤ q → has q xs ≡ false
  Given-absent n q [] g h = refl
  Given-absent n q ((p, v) ∷ xs) g h = ground (arith, Given-absent n q xs g.2)

  pub Given-mono : (n k : ℕ) (xs : List (Ptr × IndexVal D)) → Given n xs → n ≤ k → Given k xs
  Given-mono n k [] g h = tt
  Given-mono n k ((p, v) ∷ xs) g h = (g.0, omega arith, Given-mono n k xs g.2 h)

  pub Chain-first :
      (m : Mem D) (a s : Ptr) (xs : List (Ptr × IndexVal D))
      → Chain m a xs s
      → m.next a ≡ first xs s
  Chain-first m a s [] c = c.0
  Chain-first m a s ((p, v) ∷ xs) c = c.0

  pub Chain-last :
      (m : Mem D) (a s : Ptr) (ys zs : List (Ptr × IndexVal D))
      → Chain m a (ys ++ zs) s
      → m.prev (first zs s) ≡ last a ys
  Chain-last m a s [] [] c = c.1
  Chain-last m a s [] ((p, v) ∷ zs) c = c.1
  Chain-last m a s ((p, v) ∷ ys) zs c = Chain-last m p s ys zs c.4

  pub has-append :
      (q : Ptr) (xs ys : List (Ptr × IndexVal D)) → has q (xs ++ ys) ≡ (has q xs || has q ys)
  has-append q [] ys = refl
  has-append q ((p, v) ∷ xs) ys = ground (arith, has-append q xs ys)

  -- The last address is that of the start or of a node.
  pub has-last :
      (q a : Ptr) (ys : List (Ptr × IndexVal D))
      → (q == a) ≡ false
      → has q ys ≡ false
      → (q == last a ys) ≡ false
  has-last q a [] h k = h
  has-last q a ((p, v) ∷ ys) h k = has-last q p ys (ground arith) (ground arith)

  pub has-first :
      (q s : Ptr) (zs : List (Ptr × IndexVal D))
      → (q == s) ≡ false
      → has q zs ≡ false
      → (q == first zs s) ≡ false
  has-first q s [] h k = h
  has-first q s ((p, v) ∷ zs) h k = ground arith

  -- what `insert_before` and `push_back` write: a new node with item `iv` before `curr`
  abbrev pub inserted : Mem D → Ptr → IndexVal D → Mem D
  inserted m curr iv = record {
    live = update m.live m.fresh true;
    prev = update (update (update m.prev m.fresh null) m.fresh (m.prev curr)) curr m.fresh;
    next = update (update (update m.next m.fresh null) (m.prev curr) m.fresh) m.fresh curr;
    value = update m.value m.fresh iv;
    fresh = suc m.fresh;
  }

  -- an address of a list and one that is not in it
  pub has_ne :
      (q r : Ptr) (xs : List (Ptr × IndexVal D))
      → has q xs ≡ true
      → has r xs ≡ false
      → (q == r) ≡ false
  has_ne q r xs h k = elim (Bool-cases (q == r)) [
    | inl e ↦ let same : q ≡ r = ground arith in cc (ap (λ z. has z xs) same)
    | inr e ↦ e
  ]

  Chain-inserted_here :
      (m : Mem D) (a s : Ptr) (iv : IndexVal D) (zs : List (Ptr × IndexVal D))
      → Chain m a zs s
      → Distinct zs
      → has a zs ≡ false
      → has s zs ≡ false
      → Given m.fresh zs
      → a < m.fresh
      → s < m.fresh
      → Chain (inserted m (first zs s) iv) a ((m.fresh, iv) ∷ zs) s
  Chain-inserted_here m a s iv [] c d ha hs g la ls = ground arith
  Chain-inserted_here m a s iv ((p, v) ∷ zs) c d ha hs g la ls =
      let absent : has m.fresh zs ≡ false = Given-absent m.fresh m.fresh zs g.2 (omega arith) in
      let rest : Chain (inserted m p iv) p zs s =
        Chain-frame m (inserted m p iv) p s zs c.4 (ground arith) (ground arith) (λ q h. ground (
          arith,
          has_ne q m.fresh zs h absent,
          has_ne q p zs h d.0,
          has_ne q a zs h (ground arith),
        )) in
      (
        ground arith,
        ground arith,
        ground arith,
        ground arith,
        (ground arith, ground arith, ground arith, ground arith, rest),
      )

  -- A new node behind `ys` and before `zs`.
  pub Chain-inserted :
      (m : Mem D) (a s : Ptr) (iv : IndexVal D) (ys zs : List (Ptr × IndexVal D))
      → Chain m a (ys ++ zs) s
      → Distinct (ys ++ zs)
      → has a (ys ++ zs) ≡ false
      → has s (ys ++ zs) ≡ false
      → Given m.fresh (ys ++ zs)
      → a < m.fresh
      → s < m.fresh
      → Chain (inserted m (first zs s) iv) a (ys ++ (m.fresh, iv) ∷ zs) s
  Chain-inserted m a s iv [] zs c d ha hs g la ls =
      Chain-inserted_here m a s iv zs c d ha hs g la ls
  Chain-inserted m a s iv ((p, v) ∷ ys) zs c d ha hs g la ls =
      let rest : Chain (inserted m (first zs s) iv) p (ys ++ (m.fresh, iv) ∷ zs) s =
        Chain-inserted m p s iv ys zs c.4 d.1 d.0 (ground arith) g.2 (omega arith) ls in
      let before = Chain-last m p s ys zs c.4 in
      let apart : (a == last p ys) ≡ false =
        has-last a p ys (ground arith) (ground (arith, has-append a ys zs)) in
      let ahead : (p == first zs s) ≡ false =
        has-first p s zs (ground arith) (ground (arith, has-append p ys zs)) in
      (ground (arith, before, apart), ground (arith, ahead), ground arith, ground arith, rest)

  -- what `pop_back` writes: the node `p` before `s` is unlinked and freed
  abbrev pub removed : Mem D → Ptr → Ptr → Mem D
  removed m p s = record m {
    next = update m.next (m.prev p) s;
    prev = update m.prev s (m.prev p);
    live = update m.live p false;
  }

  pub Chain-removed :
      (m : Mem D) (a s p : Ptr) (v : IndexVal D) (ys : List (Ptr × IndexVal D))
      → Chain m a (ys ++ (p, v) ∷ []) s
      → Distinct (ys ++ (p, v) ∷ [])
      → has a (ys ++ (p, v) ∷ []) ≡ false
      → has s (ys ++ (p, v) ∷ []) ≡ false
      → Chain (removed m p s) a ys s
  Chain-removed m a s p v [] c d ha hs = ground arith
  Chain-removed m a s p v ((q, w) ∷ ys) c d ha hs =
      let rest : Chain (removed m p s) q ys s =
        Chain-removed m q s p v ys c.4 d.1 d.0 (ground arith) in
      let before = Chain-last m q s ys ((p, v) ∷ []) c.4 in
      let apart : (a == last q ys) ≡ false =
        has-last a q ys (ground arith) (ground (arith, has-append a ys ((p, v) ∷ []))) in
      let other : (q == p) ≡ false = ground (arith, has-append q ys ((p, v) ∷ [])) in
      (ground (arith, before, apart), ground arith, ground arith, ground (arith, other), rest)
