-- ===== src/KdTree/Traversal/Ascent.antt =====
-- The way back: the samples of every leaf are evaluated once.
use monya.Prelude.{
  ℕ, zero, suc, ◌+◌, ◌-◌, ◌<◌, ◌≡◌, refl, ◌∙◌, Bool, true, false, ◌||◌, arith, [], Ptr, update,
  if◌then◌else◌, Bool-cases, inl, inr, Run, ok, throw, fault, out_of_fuel, ◌>>=◌, Scalar, length,
}
use monya.MemoryIo.{MemoryIo}
use monya.BinaryTree.Shape.{has, Distinct, Shape}
use monya.Query.{Stack, stack_empty, push, ProximityQuery}
use monya.KdTree.Traversal.{KdMem, eval_samples, process, unwind, find_neighbors}
use monya.KdTree.Traversal.FullTree.{
  FullTree, samples, tip, fork, tree, nodes, root, mark, mark_lem, root-has, Shape-at_root,
  Unmarked, Unmarked-left, Unmarked-right, Unmarked-update,
}
use monya.KdTree.Traversal.Unwind.{
  unwind-push, unwind-subtree, process-fork, push_child-new, push_child-old, eval_samples-then,
  bind_same,
}
use monya.KdTree.Traversal.Descent.{goes_right, push_path, path_samples, InDims, descend-push_path}

apart : (a b : Bool) → (a ≡ true → b ≡ false) → b ≡ true → a ≡ false
apart true b f h = absurd (ground (arith, f refl))
apart false b f h = refl

bind_ok : {A : Type 0} (r : Run A) (f : A → Run A) → ((a : A) → f a ≡ ok a) → (r >>= f) ≡ r
bind_ok (ok a) f e = e a
bind_ok (throw x) f e = refl
bind_ok fault f e = refl
bind_ok out_of_fuel f e = refl

module _ {D : Type 0} (s : Scalar D) (m : KdMem D) where
  -- the completed nodes after the way back
  abbrev mark_path : ProximityQuery D → FullTree D → (Ptr → Bool) → Ptr → Bool
  mark_path q (tip a k) c = update c a true
  mark_path q (fork l a k r) c =
      if goes_right s m q a
      then mark l (update (mark_path q r c) a true)
      else mark r (update (mark_path q l c) a true)

  mark_path_lem :
      (q : ProximityQuery D) (t : FullTree D) (c : Ptr → Bool) (x : Ptr)
      → mark_path q t c x ≡ (has x (tree t) || c x)
  mark_path_lem q (tip a k) c x = ground arith
  mark_path_lem q (fork l a k r) c x = ground (
    arith,
    mark_lem l (update (mark_path q r c) a true) x,
    mark_lem r (update (mark_path q l c) a true) x,
    mark_path_lem q r c x,
    mark_path_lem q l c x,
  )

  module _ (io : MemoryIo D) (tree_id : ℕ) where
    -- A node on the path whose right side is done.
    process-left :
        (c : Ptr → Bool) (v : Stack Ptr) (q : ProximityQuery D) (p par : Ptr) (l r : FullTree D)
        (a : Ptr) (k : D)
        → Shape m.links p par (tree (fork l a k r))
        → c (root l) ≡ false
        → c (root r) ≡ true
        → process s io m tree_id c v q p ≡ ok (push v (root l), q)
    process-left c v q p par l r a k sh new old =
        rw
          (
            process-fork s io m tree_id c v q p par l r a k sh,
            push_child-new s io m tree_id c v (root l) new (Shape-at_root m.links _ a l sh.5).1,
            push_child-old s io m tree_id c (push v (root l)) (root r) old,
          )
          refl

    process-right :
        (c : Ptr → Bool) (v : Stack Ptr) (q : ProximityQuery D) (p par : Ptr) (l r : FullTree D)
        (a : Ptr) (k : D)
        → Shape m.links p par (tree (fork l a k r))
        → c (root l) ≡ true
        → c (root r) ≡ false
        → process s io m tree_id c v q p ≡ ok (push v (root r), q)
    process-right c v q p par l r a k sh old new =
        rw
          (
            process-fork s io m tree_id c v q p par l r a k sh,
            push_child-old s io m tree_id c v (root l) old,
            push_child-new s io m tree_id c v (root r) new (Shape-at_root m.links _ a r sh.6).1,
          )
          refl

    -- the sibling's subtree, after the child on the path
    then_left :
        (l r : FullTree D) (a par : Ptr) (k : D) (fuel : ℕ) (c : Ptr → Bool) (v : Stack Ptr)
        (q : ProximityQuery D)
        → Shape m.links a par (tree (fork l a k r))
        → Distinct (tree (fork l a k r))
        → Unmarked l c
        → c (root r) ≡ true
        → unwind s (1 + (nodes l + fuel)) io m tree_id c (push v a) q ≡ (
            eval_samples s io tree_id (samples m l) q
            >>= unwind s fuel io m tree_id (mark l (update c a true)) v)
    then_left l r a par k fuel c v q sh d u old =
        unwind-push s io m tree_id (1 + (nodes l + fuel)) (nodes l + fuel) c v q a (omega arith)
        ∙ rw (process-left c v q a par l r a k sh (u (root l) (root-has l)) old) (
            unwind-subtree s io m tree_id l (root l) a fuel (update c a true) v q
              (Shape-at_root m.links _ a l sh.5).0 d.3 (Unmarked-update l a c d.0 u))

    then_right :
        (l r : FullTree D) (a par : Ptr) (k : D) (fuel : ℕ) (c : Ptr → Bool) (v : Stack Ptr)
        (q : ProximityQuery D)
        → Shape m.links a par (tree (fork l a k r))
        → Distinct (tree (fork l a k r))
        → Unmarked r c
        → c (root l) ≡ true
        → unwind s (1 + (nodes r + fuel)) io m tree_id c (push v a) q ≡ (
            eval_samples s io tree_id (samples m r) q
            >>= unwind s fuel io m tree_id (mark r (update c a true)) v)
    then_right l r a par k fuel c v q sh d u old =
        unwind-push s io m tree_id (1 + (nodes r + fuel)) (nodes r + fuel) c v q a (omega arith)
        ∙ rw (process-right c v q a par l r a k sh old (u (root r) (root-has r))) (
            unwind-subtree s io m tree_id r (root r) a fuel (update c a true) v q
              (Shape-at_root m.links _ a r sh.6).0 d.4 (Unmarked-update r a c d.1 u))

    -- The path on the stack is popped with the subtrees beside it.
    pub unwind-path :
        (t : FullTree D) (par : Ptr) (n fuel : ℕ) (c : Ptr → Bool) (v : Stack Ptr)
        (q : ProximityQuery D)
        → Shape m.links (root t) par (tree t)
        → Distinct (tree t)
        → Unmarked t c
        → n ≡ nodes t + fuel
        → unwind s n io m tree_id c (push_path s m q t v) q ≡ (
            eval_samples s io tree_id (path_samples s m q t) q
            >>= unwind s fuel io m tree_id (mark_path q t c) v)
    unwind-path (tip a k) par n fuel c v q sh d u e =
        rw e (unwind-subtree s io m tree_id (tip a k) a par fuel c v q sh d u)
    unwind-path (fork l a k r) par n fuel c v q sh d u e = elim (Bool-cases (goes_right s m q a)) [
      | inl g ↦
          let done : Ptr → Bool = mark_path q r c in
          let left_new : Unmarked l done =
            λ x h. rw (mark_path_lem q r c x, d.2 x h) (u x (ground arith)) in
          let right_old : done (root r) ≡ true =
            rw (mark_path_lem q r c (root r), root-has r) refl in
          rw g (
            unwind-path r a n (1 + (nodes l + fuel)) c (push v a) q
              (Shape-at_root m.links _ a r sh.6).0 d.4 (Unmarked-right l a k r c u)
              (omega (arith, e))
            ∙ bind_same (eval_samples s io tree_id (path_samples s m q r) q) _ _
                (λ w. then_left l r a par k fuel done v w sh d left_new right_old)
            ∙ eval_samples-then s io m tree_id (path_samples s m q r) (samples m l) q
                (unwind s fuel io m tree_id (mark l (update done a true)) v))
      | inr g ↦
          let done : Ptr → Bool = mark_path q l c in
          let right_new : Unmarked r done = λ x h.
            rw (mark_path_lem q l c x, apart (has x (tree l)) (has x (tree r)) (d.2 x) h)
              (u x (ground arith)) in
          let left_old : done (root l) ≡ true =
            rw (mark_path_lem q l c (root l), root-has l) refl in
          rw g (
            unwind-path l a n (1 + (nodes r + fuel)) c (push v a) q
              (Shape-at_root m.links _ a l sh.5).0 d.3 (Unmarked-left l a k r c u)
              (omega (arith, e))
            ∙ bind_same (eval_samples s io tree_id (path_samples s m q l) q) _ _
                (λ w. then_right l r a par k fuel done v w sh d right_new left_old)
            ∙ eval_samples-then s io m tree_id (path_samples s m q l) (samples m r) q
                (unwind s fuel io m tree_id (mark r (update done a true)) v))
    ]

    unwind-empty :
        (fuel : ℕ) (c : Ptr → Bool) (q : ProximityQuery D)
        → 0 < fuel
        → unwind s fuel io m tree_id c (record { elems = [] }) q ≡ ok q
    unfolding unwind stack_empty
    unwind-empty zero c q h = absurd (omega arith)
    unwind-empty (suc fuel) c q h = refl

    -- `find_neighbors` of a tree of full nodes evaluates the samples on its path and beside it.
    pub find_neighbors-samples :
        (t : FullTree D) (par : Ptr) (fuel : ℕ) (q : ProximityQuery D)
        → Shape m.links (root t) par (tree t)
        → Distinct (tree t)
        → InDims s m (length q.qsample.data_) t
        → nodes t < fuel
        → find_neighbors s fuel io m tree_id (root t) q
          ≡ eval_samples s io tree_id (path_samples s m q t) q
    unfolding find_neighbors
    find_neighbors-samples t par fuel q sh d dims f =
        let none : Ptr → Bool = λ _. false in
        rw (descend-push_path s m q t (root t) par fuel (record { elems = [] }) sh dims f) (
          unwind-path t par fuel (fuel - nodes t) none (record { elems = [] }) q sh d (λ a h. refl)
            (omega (arith, f))
          ∙ bind_ok (eval_samples s io tree_id (path_samples s m q t) q) _
              (λ u. unwind-empty (fuel - nodes t) (mark_path q t none) u (omega (arith, f))))
