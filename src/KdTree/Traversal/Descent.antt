-- ===== src/KdTree/Traversal/Descent.antt =====
-- The path from the root to a leaf.
use monya.Prelude.{
  ℕ, zero, suc, ◌<◌, ◌≡◌, refl, ap, Bool, true, false, arith, List, ◌++◌, Ptr, if◌then◌else◌,
  Bool-cases, inl, inr, ok, fault, Scalar, Perm, length, get_elem?, get_elem?-in_range, Option,
  none, some,
}
use mathlib.Core.List.Perm
use mathlib.Core.List.Permᴰ
use monya.IndexVector.{IndexVal}
use monya.TreeMemory.{get_left, get_right, get_comparator}
use monya.BinaryTree.Shape.{Shape}
use monya.Query.{Stack, push, entry, ProximityQuery}
use monya.KdTree.Traversal.{KdMem, next_node, descend}
use monya.KdTree.Traversal.FullTree.{FullTree, samples, tip, fork, tree, nodes, Shape-root}

module _ {D : Type 0} (s : Scalar D) (m : KdMem D) where
  abbrev pub is_above : Option D → D → Bool
  is_above none c = false
  is_above (some x) c = s.lt c x

  -- whether the query goes right at a node
  abbrev pub goes_right : ProximityQuery D → Ptr → Bool
  goes_right q a = is_above (get_elem? q.qsample.data_ (m.split_dim a)) (m.links.comparator a)

  -- the query has an entry for the dimension of every node
  abbrev pub InDims : ℕ → FullTree D → Type 0
  InDims n (tip a k) = m.split_dim a < n
  InDims n (fork l a k r) = (m.split_dim a < n) × InDims n l × InDims n r

  entry-get_elem? :
      (q : ProximityQuery D) (i : ℕ) (x : D)
      → get_elem? q.qsample.data_ i ≡ some x
      → entry q.qsample i ≡ ok x
  unfolding entry
  entry-get_elem? q i x e = ap (λ o. elim o [ none ↦ fault | some x ↦ ok x ]) e

  next_node-goes_right :
      (q : ProximityQuery D) (a : Ptr)
      → m.links.live a ≡ true
      → m.split_dim a < length q.qsample.data_
      → next_node s m q a ≡ ok (if goes_right q a then m.links.right a else m.links.left a)
  unfolding next_node get_comparator get_left get_right
  next_node-goes_right q a live h =
      let (x, e) = get_elem?-in_range q.qsample.data_ (m.split_dim a) h in
      rw (live, entry-get_elem? q (m.split_dim a) x e, e) (ground arith)

  -- the stack after the descent
  abbrev pub push_path : ProximityQuery D → FullTree D → Stack Ptr → Stack Ptr
  push_path q (tip a k) v = push v a
  push_path q (fork l a k r) v =
      if goes_right q a then push_path q r (push v a) else push_path q l (push v a)

  -- The descent ends, with the path on the stack.
  pub descend-push_path :
      (q : ProximityQuery D) (t : FullTree D) (p par : Ptr) (fuel : ℕ) (v : Stack Ptr)
      → Shape m.links p par (tree t)
      → InDims (length q.qsample.data_) t
      → nodes t < fuel
      → descend s fuel m q v p ≡ ok (push_path q t v)
  unfolding descend
  descend-push_path q t p par zero v sh h f = absurd (omega arith)
  descend-push_path q (tip a k) p par (suc fuel) v sh h f =
      rw (sh.0, next_node-goes_right q a sh.2 h)
        (elim (Bool-cases (goes_right q a)) [
          | inl e ↦ rw (e, sh.6) refl
          | inr e ↦ rw (e, sh.5) refl
        ])
  descend-push_path q (fork l a k r) p par (suc fuel) v sh h f =
      rw (sh.0, next_node-goes_right q a sh.2 h.0)
        (elim (Bool-cases (goes_right q a)) [
          | inl e ↦
              rw (e, (Shape-root m.links (m.links.right a) a r sh.6).1)
                (descend-push_path q r (m.links.right a) a fuel (push v a) sh.6 h.2 (omega arith))
          | inr e ↦
              rw (e, (Shape-root m.links (m.links.left a) a l sh.5).1)
                (descend-push_path q l (m.links.left a) a fuel (push v a) sh.5 h.1 (omega arith))
        ])

  -- the samples in the order of their evaluation
  abbrev pub path_samples : ProximityQuery D → FullTree D → List (IndexVal D)
  path_samples q (tip a k) = (m.data_index a).items
  path_samples q (fork l a k r) =
      if goes_right q a then path_samples q r ++ samples m l else path_samples q l ++ samples m r

  -- They are those of the leaves.
  pub path_samples-perm :
      (q : ProximityQuery D) (t : FullTree D) → Perm (path_samples q t) (samples m t)
  path_samples-perm q (tip a k) = Perm.refl _
  path_samples-perm q (fork l a k r) = elim (Bool-cases (goes_right q a)) [
    | inl e ↦ rw e (Perm.append (path_samples-perm q r) (Perm.refl (samples m l)))
    | inr e ↦ rw e (
        Perm.trans (Perm.append (path_samples-perm q l) (Perm.refl (samples m r)))
          ∣ Permᴰ.append_comm (samples m l) (samples m r) ∣₁)
  ]
