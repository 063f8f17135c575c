-- ===== src/RbTree/InsertAt.antt =====
-- `insert_at` of `RBTree`: it hands its parent to `balance` as the node to insert.
use monya.Prelude.{
  ℕ, zero, suc, ◌≡◌, refl, ◌⊎◌, inl, inr, true, false, ◌==◌, ==_refl, Run, ok, throw, fault,
  out_of_fuel, ◌>>=◌, Returns, Scalar, IsOrdered, Ptr, null, update,
}
use monya.TreeMemory.{BChild, left_child, right_child}
use monya.RbTree.{RbTree, balance_step, balance_loop, balance, place, insert_at, blacken_root}

module _ {D : Type 0} where
  -- a red node that is its own parent and one of its own children
  pub record Knot (t : RbTree D) (p : Ptr) : Type 0 where
    pub live : t.mem.live p ≡ true
    pub some_node : (p == null) ≡ false
    pub own_parent : t.mem.parent p ≡ p
    pub red : t.mem.color p ≡ 1
    pub own_child :
        ((t.mem.left p ≡ null) × (t.mem.right p ≡ p))
        ⊎ ((t.mem.left p ≡ p) × (t.mem.right p ≡ null))

  -- the memory after a round that turns the knot to the left, and to the right
  abbrev turned_left : RbTree D → Ptr → RbTree D
  turned_left t p = record t {
    mem = record t.mem {
      color = update (update t.mem.color p 0) p 1;
      right = update t.mem.right p null;
      parent = update (update t.mem.parent p p) p p;
      left = update (update t.mem.left p p) p p;
    };
  }

  abbrev turned_right : RbTree D → Ptr → RbTree D
  turned_right t p = record t {
    mem = record t.mem {
      color = update (update t.mem.color p 0) p 1;
      left = update t.mem.left p null;
      parent = update (update t.mem.parent p p) p p;
      right = update (update t.mem.right p p) p p;
    };
  }

  module _ (t : RbTree D) (p : Ptr) (live : t.mem.live p ≡ true) (some : (p == null) ≡ false)
      (up : t.mem.parent p ≡ p) where
    turn_left : t.mem.left p ≡ null → t.mem.right p ≡ p → balance_step t p ≡ ok (turned_left t p, p)
    unfolding balance_step
    turn_left l r = simp (live, up, some, l, r, ==_refl)

    turn_right :
        t.mem.left p ≡ p → t.mem.right p ≡ null → balance_step t p ≡ ok (turned_right t p, p)
    unfolding balance_step
    turn_right l r = simp (live, up, some, l, r, ==_refl)

  balance_step-Knot :
      (t : RbTree D) (p : Ptr)
      → Knot t p
      → Returns (λ (u, q). (q ≡ p) × Knot u p) (balance_step t p)
  balance_step-Knot t p k = turn k.own_child
    where
      turn :
          ((t.mem.left p ≡ null) × (t.mem.right p ≡ p))
            ⊎ ((t.mem.left p ≡ p) × (t.mem.right p ≡ null))
          → Returns (λ (u, q). (q ≡ p) × Knot u p) (balance_step t p)
      turn (inl (l, r)) = rw (turn_left t p k.live k.some_node k.own_parent l r) (
        refl,
        record {
          live = k.live;
          some_node = k.some_node;
          own_parent = simp (==_refl p);
          red = simp (==_refl p);
          own_child = inr (simp (==_refl p), simp (==_refl p));
        },
      )
      turn (inr (l, r)) = rw (turn_right t p k.live k.some_node k.own_parent l r) (
        refl,
        record {
          live = k.live;
          some_node = k.some_node;
          own_parent = simp (==_refl p);
          red = simp (==_refl p);
          own_child = inl (simp (==_refl p), simp (==_refl p));
        },
      )

  balance_loop_turns :
      (fuel : ℕ) (t : RbTree D) (p : Ptr) → Knot t p → balance_loop fuel t p ≡ out_of_fuel
  unfolding balance_loop
  balance_loop_turns zero t p k = refl
  balance_loop_turns (suc fuel) t p k =
      rw (k.live, k.own_parent, k.some_node, k.live, k.red)
        (on (balance_step t p) (balance_step-Knot t p k) (balance_loop_turns fuel))
    where
      on :
          (r : Run (RbTree D × Ptr))
          → Returns (λ (u, q). (q ≡ p) × Knot u p) r
          → ((u : RbTree D) (q : Ptr) → Knot u q → balance_loop fuel u q ≡ out_of_fuel)
          → (r >>= λ (u, q). balance_loop fuel u q) ≡ out_of_fuel
      on (ok (u, q)) (e, k) next = next u q (rw e k)
      on (throw e) h next = absurd h
      on fault h next = absurd h
      on out_of_fuel h next = absurd h

module _ {D : Type 0} (s : Scalar D) (o : IsOrdered s) where
  -- the links that `balance` sets where parent and node are one
  place-Knot :
      (t : RbTree D) (p : Ptr)
      → t.mem.live p ≡ true
      → (p == null) ≡ false
      → Returns (λ u. Knot u p) (place s t p p)
  unfolding place
  place-Knot t p live some =
      simp (some, live, o.lt_irrefl (t.mem.comparator p))
        (record {
          live = live;
          some_node = some;
          own_parent = simp (==_refl p);
          red = simp (==_refl p);
          own_child = inl (simp (==_refl p), simp (==_refl p));
        })

  balance_turns :
      (fuel : ℕ) (t : RbTree D) (p new_node : Ptr)
      → t.mem.live p ≡ true
      → (p == null) ≡ false
      → balance s fuel t p p new_node ≡ out_of_fuel
  unfolding balance
  balance_turns fuel t p new_node live some = on (place s t p p) (place-Knot t p live some)
    where
      on :
          (r : Run (RbTree D))
          → Returns (λ u. Knot u p) r
          → (r >>= λ u. balance_loop fuel u p >>= λ u. blacken_root u) ≡ out_of_fuel
      on (ok u) k = rw (balance_loop_turns fuel u p k)
      on (throw e) h = absurd h
      on fault h = absurd h
      on out_of_fuel h = absurd h

  -- However much fuel it is given, `insert_at` below a node with no left child does not return, on
  -- either side.
  pub insert_at_diverges :
      (fuel : ℕ) (t : RbTree D) (new_node node : Ptr) (pos : BChild)
      → t.mem.live new_node ≡ true
      → t.mem.live node ≡ true
      → (node == null) ≡ false
      → t.mem.left node ≡ null
      → insert_at s fuel t new_node node pos ≡ out_of_fuel
  unfolding insert_at
  insert_at_diverges fuel t new_node node left_child ln l some free =
      simp (l, free, ln) (balance_turns fuel _ node new_node l some)
  insert_at_diverges fuel t new_node node right_child ln l some free =
      simp (l, free, ln) (balance_turns fuel _ node new_node l some)
