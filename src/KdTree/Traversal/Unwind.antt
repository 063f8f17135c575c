-- ===== src/KdTree/Traversal/Unwind.antt =====
-- The loop over the stack evaluates the samples of each leaf once.
use monya.Prelude.{
  ℕ, suc, ◌+◌, ◌≡◌, refl, sym, ap, ◌∙◌, Bool, true, false, arith, List, [], ◌∷◌, ◌++◌, Ptr, update,
  Run, ok, throw, fault, out_of_fuel, ◌>>=◌, Scalar, length-append,
}
use monya.IndexVector.{IndexVal}
use monya.MemoryIo.{MemoryIo}
use monya.TreeMemory.{has_child, get_left, get_right, get_comparator}
use monya.BinaryTree.Shape.{Distinct, Shape}
use monya.Query.{Stack, push, pop, stack_empty, ProximityQuery}
use monya.Query
use monya.Query.Eval.{pop-push}
use monya.KdTree.Traversal.{KdMem, distance, eval_samples, push_child, process, unwind}
use monya.KdTree.Traversal.FullTree.{
  FullTree, samples, tip, fork, tree, nodes, root, mark, root-has, Shape-root, Shape-at_root,
  Unmarked, Unmarked-left, Unmarked-right, Unmarked-update, Unmarked-mark,
}

pub bind_assoc :
    {A B C : Type 0} (r : Run A) (f : A → Run B) (g : B → Run C)
    → ((r >>= f) >>= g) ≡ (r >>= λ a. f a >>= g)
bind_assoc (ok a) f g = refl
bind_assoc (throw e) f g = refl
bind_assoc fault f g = refl
bind_assoc out_of_fuel f g = refl

pub bind_same :
    {A B : Type 0} (r : Run A) (f g : A → Run B) → ((a : A) → f a ≡ g a) → (r >>= f) ≡ (r >>= g)
bind_same (ok a) f g same = same a
bind_same (throw e) f g same = refl
bind_same fault f g same = refl
bind_same out_of_fuel f g same = refl

module _ {D : Type 0} (s : Scalar D) (io : MemoryIo D) (m : KdMem D) (tree_id : ℕ) where
  eval_samples-append :
      (xs ys : List (IndexVal D)) (q : ProximityQuery D)
      → eval_samples s io tree_id (xs ++ ys) q
        ≡ (eval_samples s io tree_id xs q >>= eval_samples s io tree_id ys)
  unfolding eval_samples
  eval_samples-append [] ys q = refl
  eval_samples-append (x ∷ xs) ys q =
      bind_same (distance s io q.qsample.data_ x.index) _ _ (λ d.
        bind_same (Query.eval s q x.index d tree_id) _ _ (λ u. eval_samples-append xs ys u)
        ∙ sym (bind_assoc (Query.eval s q x.index d tree_id) _ _))
      ∙ sym (bind_assoc (distance s io q.qsample.data_ x.index) _ _)

  pub eval_samples-then :
      (xs ys : List (IndexVal D)) (q : ProximityQuery D)
      (k : ProximityQuery D → Run (ProximityQuery D))
      → (eval_samples s io tree_id xs q >>= λ u. eval_samples s io tree_id ys u >>= k)
        ≡ (eval_samples s io tree_id (xs ++ ys) q >>= k)
  eval_samples-then xs ys q k =
      sym (bind_assoc (eval_samples s io tree_id xs q) (eval_samples s io tree_id ys) k)
      ∙ ap (λ r. r >>= k) (sym (eval_samples-append xs ys q))

  pub push_child-new :
      (completed : Ptr → Bool) (visited : Stack Ptr) (child : Ptr)
      → completed child ≡ false
      → m.links.live child ≡ true
      → push_child s m completed visited child ≡ ok (push visited child)
  unfolding push_child get_comparator
  push_child-new c v child new live = simp (new, live)

  pub push_child-old :
      (completed : Ptr → Bool) (visited : Stack Ptr) (child : Ptr)
      → completed child ≡ true
      → push_child s m completed visited child ≡ ok visited
  unfolding push_child
  push_child-old c v child old = simp old

  push-stack_empty : (v : Stack Ptr) (p : Ptr) → stack_empty (push v p) ≡ false
  unfolding stack_empty push
  push-stack_empty v p = ground (arith, length-append v.elems (p ∷ []))

  -- One round pops the node on top.
  pub unwind-push :
      (n fuel : ℕ) (c : Ptr → Bool) (v : Stack Ptr) (q : ProximityQuery D) (p : Ptr)
      → n ≡ suc fuel
      → unwind s n io m tree_id c (push v p) q ≡ (
          process s io m tree_id c v q p >>= λ (v, q).
          unwind s fuel io m tree_id (update c p true) v q)
  unfolding unwind
  unwind-push n fuel c v q p e = rw (e, push-stack_empty v p, pop-push v p) refl

  pub process-tip :
      (c : Ptr → Bool) (v : Stack Ptr) (q : ProximityQuery D) (p par : Ptr) (a : Ptr) (k : D)
      → Shape m.links p par (tree (tip a k))
      → process s io m tree_id c v q p
        ≡ (eval_samples s io tree_id (m.data_index a).items q >>= λ q. ok (v, q))
  unfolding process has_child get_left get_right
  process-tip c v q p par a k sh = rw (sh.0, sh.2, sh.5, sh.6) refl

  pub process-fork :
      (c : Ptr → Bool) (v : Stack Ptr) (q : ProximityQuery D) (p par : Ptr) (l r : FullTree D)
      (a : Ptr) (k : D)
      → Shape m.links p par (tree (fork l a k r))
      → process s io m tree_id c v q p
        ≡ (push_child s m c v (root l) >>= λ v. push_child s m c v (root r) >>= λ v. ok (v, q))
  unfolding process has_child get_left get_right
  process-fork c v q p par l r a k sh =
      let on_left = Shape-root m.links (m.links.left a) a l sh.5 in
      let on_right = Shape-root m.links (m.links.right a) a r sh.6 in
      rw (sh.0, sh.2, on_left.1, on_left.0, on_right.0) refl

  -- Both children are pushed where neither has been processed.
  process-both :
      (c : Ptr → Bool) (v : Stack Ptr) (q : ProximityQuery D) (p par : Ptr) (l r : FullTree D)
      (a : Ptr) (k : D)
      → Shape m.links p par (tree (fork l a k r))
      → c (root l) ≡ false
      → c (root r) ≡ false
      → m.links.live (root l) ≡ true
      → m.links.live (root r) ≡ true
      → process s io m tree_id c v q p ≡ ok (push (push v (root l)) (root r), q)
  process-both c v q p par l r a k sh new_l new_r live_l live_r =
      rw
        (
          process-fork c v q p par l r a k sh,
          push_child-new c v (root l) new_l live_l,
          push_child-new c (push v (root l)) (root r) new_r live_r,
        )
        refl

  -- A subtree on top of the stack is popped whole, and its samples are evaluated.
  pub unwind-subtree :
      (t : FullTree D) (p par : Ptr) (fuel : ℕ) (c : Ptr → Bool) (v : Stack Ptr)
      (q : ProximityQuery D)
      → Shape m.links p par (tree t)
      → Distinct (tree t)
      → Unmarked t c
      → unwind s (nodes t + fuel) io m tree_id c (push v p) q
        ≡ (eval_samples s io tree_id (samples m t) q >>= unwind s fuel io m tree_id (mark t c) v)
  unwind-subtree (tip a k) p par fuel c v q sh d u =
      unwind-push (1 + fuel) fuel c v q p (omega arith)
      ∙ rw (process-tip c v q p par a k sh, sh.0)
          (bind_assoc (eval_samples s io tree_id (m.data_index a).items q) _ _)
  unwind-subtree (fork l a k r) p par fuel c v q sh d u =
      let (shape_l, live_l) = Shape-at_root m.links (m.links.left a) a l sh.5 in
      let (shape_r, live_r) = Shape-at_root m.links (m.links.right a) a r sh.6 in
      let new_l : Unmarked l c = Unmarked-left l a k r c u in
      let new_r : Unmarked r c = Unmarked-right l a k r c u in
      let after : Ptr → Bool = update c a true in
      let after_l : Unmarked l after = Unmarked-update l a c d.0 new_l in
      let after_r : Unmarked r after = Unmarked-update r a c d.1 new_r in
      unwind-push (nodes (fork l a k r) + fuel) (nodes r + (nodes l + fuel)) c v q p (omega arith)
      ∙ rw
          (
            process-both c v q p par l r a k sh (new_l (root l) (root-has l))
                (new_r (root r) (root-has r)) live_l live_r,
            sh.0,
          )
          (unwind-subtree r (root r) a (nodes l + fuel) after (push v (root l)) q shape_r d.4
              after_r
            ∙ bind_same (eval_samples s io tree_id (samples m r) q) _ _ (λ w.
              unwind-subtree l (root l) a fuel (mark r after) v w shape_l d.3
                (Unmarked-mark l r after d.2 after_l))
            ∙ eval_samples-then (samples m r) (samples m l) q
                (unwind s fuel io m tree_id (mark l (mark r after)) v))
