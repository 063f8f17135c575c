-- ===== src/TreeProgram/Children.antt =====
-- Scheduling the children of the nodes of a level fills the next one, which is then run.
use monya.Prelude.{
  ◌+◌, ◌^◌, ◌<◌, ◌≡◌, refl, sym, ap, subst, ◌∙◌, true, false, arith, List, [], ◌∷◌, ◌++◌, Returns,
  Returns-mono, bind-Returns, Ptr, null, ◌==◌, length, length-append, mem, mem-append_middle,
}
use mathlib.Core.List.{append_assoc}
use monya.TreeProgram.{Nodes, Program, schedule, schedule_child, schedule_children}
use monya.TreeProgram.Work.{Steps}
use monya.TreeProgram.Fill.{IsIdle, Waits, Runs, schedule-Waits, schedule-Runs}

-- the children of some nodes, in the order of the nodes
abbrev pub children : (Ptr → Ptr) → (Ptr → Ptr) → List Ptr → List Ptr
children left right [] = []
children left right (p ∷ ps) = left p ∷ right p ∷ children left right ps

module _ {S : Type 0} (ops : Nodes S) (P : S → Type 0) (D : S → Ptr → Type 0) where
  schedule_child-schedule :
      (p : Program S) (c child : Ptr)
      → c ≡ child
      → (child == null) ≡ false
      → schedule_child ops p c ≡ schedule ops p child
  unfolding schedule_child
  schedule_child-schedule p c child e live = rw (e, live) refl

  append_both :
      (xs : List Ptr) (a b : Ptr) (ys : List Ptr) → (xs ++ a ∷ []) ++ b ∷ ys ≡ xs ++ a ∷ (b ∷ ys)
  append_both xs a b ys = append_assoc xs (a ∷ []) (b ∷ ys)

  Runs-after :
      (p u v : Program S) (full : List (List Ptr)) (filed level' level : List Ptr)
      → Waits ops p full filed u
      → level' ≡ level
      → Runs ops P D u full level' v
      → Runs ops P D p full level v
  Runs-after p u v full filed level' level w e k = record {
    idle = subst (λ z. IsIdle v (full ++ z ∷ []) []) e k.idle;
    done = (
      k.done.0,
      λ a m. k.done.1 a (subst (λ z. mem a z ≡ true) (sym e) m),
      λ a d. k.done.2 a (subst (λ z. D z a) (sym w.nodes) d),
    );
    root = k.root ∙ w.root;
    max_depth = k.max_depth ∙ w.max_depth;
  }

  -- Scheduling the children of the nodes fills the level that they complete.
  pub schedule_children-Runs :
      (ps : List Ptr) (p : Program S) (full : List (List Ptr)) (current level : List Ptr)
      → IsIdle p full current
      → current ++ children (ops.left p.nodes) (ops.right p.nodes) ps ≡ level
      → 0 < length ps
      → length level ≡ 2 ^ length full
      → ((a : Ptr) → mem a level ≡ true → (a == null) ≡ false)
      → Steps ops.work P D (λ a. mem a level ≡ true)
      → P p.nodes
      → Returns (Runs ops P D p full level) (schedule_children ops ps p)
  unfolding schedule_children
  schedule_children-Runs [] p full current level h e some_node len live step start =
      absurd (omega arith)
  schedule_children-Runs (a ∷ []) p full current level h e some_node len live step start =
      let l = ops.left p.nodes a in
      let r = ops.right p.nodes a in
      let split : (current ++ l ∷ []) ++ r ∷ [] ≡ level = append_both current l r [] ∙ e in
      let on_left : (l == null) ≡ false =
        live l (subst (λ z. mem l z ≡ true) e (mem-append_middle l current (r ∷ []))) in
      let on_right : (r == null) ≡ false =
        live r (subst (λ z. mem r z ≡ true) split (mem-append_middle r (current ++ l ∷ []) [])) in
      let one = length-append current (l ∷ []) in
      let two = length-append (current ++ l ∷ []) (r ∷ []) in
      rw (schedule_child-schedule p l l refl on_left) (
        bind-Returns (Runs ops P D p full level) (schedule ops p l) _
          (schedule-Waits ops p full current l h (ground (arith, one, two, len, ap length split)))
          λ u w.
            rw
              (schedule_child-schedule u (ops.right u.nodes a) r (ap (λ z. ops.right z a) w.nodes)
                on_right)
              (bind-Returns (Runs ops P D p full level) (schedule ops u r) _
                (schedule-Runs ops P D u full (current ++ l ∷ []) r w.idle
                  (ground (arith, two, len, ap length split))
                  (λ x k. live x (subst (λ z. mem x z ≡ true) split k))
                  (λ st x k. step st x (subst (λ z. mem x z ≡ true) split k))
                  (subst P (sym w.nodes) start))
                λ v k. Runs-after p u v full _ _ level w split k))
  schedule_children-Runs (a ∷ b ∷ ps) p full current level h e some_node len live step start =
      let l = ops.left p.nodes a in
      let r = ops.right p.nodes a in
      let rest = children (ops.left p.nodes) (ops.right p.nodes) (b ∷ ps) in
      let split : (current ++ l ∷ []) ++ r ∷ rest ≡ level = append_both current l r rest ∙ e in
      let on_left : (l == null) ≡ false =
        live l (subst (λ z. mem l z ≡ true) e (mem-append_middle l current (r ∷ rest))) in
      let on_right : (r == null) ≡ false =
        live r (subst (λ z. mem r z ≡ true) split (mem-append_middle r (current ++ l ∷ []) rest)) in
      let one = length-append current (l ∷ []) in
      let two = length-append (current ++ l ∷ []) (r ∷ rest) in
      let both : ((current ++ l ∷ []) ++ r ∷ []) ++ rest ≡ level =
        append_assoc (current ++ l ∷ []) (r ∷ []) rest ∙ split in
      let more : (2 ^ length full == length current + 1) ≡ false =
        ground (arith, one, two, len, ap length split) in
      let three = length-append ((current ++ l ∷ []) ++ r ∷ []) rest in
      let two' = length-append (current ++ l ∷ []) (r ∷ []) in
      let more' : (2 ^ length full == length (current ++ l ∷ []) + 1) ≡ false =
        ground (arith, one, two', three, len, ap length both) in
      rw (schedule_child-schedule p l l refl on_left) (
        bind-Returns (Runs ops P D p full level) (schedule ops p l) _
          (schedule-Waits ops p full current l h more)
          λ u w.
            rw
              (schedule_child-schedule u (ops.right u.nodes a) r (ap (λ z. ops.right z a) w.nodes)
                on_right)
              (bind-Returns (Runs ops P D p full level) (schedule ops u r) _
                (schedule-Waits ops u full (current ++ l ∷ []) r w.idle more')
                λ v x.
                  let same : v.nodes ≡ p.nodes = x.nodes ∙ w.nodes in
                  Returns-mono _ (schedule_children ops (b ∷ ps) v)
                    (schedule_children-Runs (b ∷ ps) v full ((current ++ l ∷ []) ++ r ∷ []) level
                      x.idle
                      (ap
                          (λ z.
                            ((current ++ l ∷ []) ++ r ∷ [])
                            ++ children (ops.left z) (ops.right z) (b ∷ ps))
                          same
                        ∙ both)
                      (omega arith) len live step (subst P (sym same) start))
                    λ z k.
                      Runs-after p u z full _ level level w refl
                        (Runs-after u v z full _ level level x refl k)))
