-- ===== src/Query/Eval.antt =====
-- A query keeps one list of neighbours for each tree.
use monya.Prelude.{
  ℕ, zero, suc, ◌≡◌, refl, subst, ◌∙◌, List, [], ◌∷◌, ◌++◌, arith, ok, Returns, bind-Returns,
  Returns-mono, Scalar, take, set, some, get_elem?,
}
use monya.IndexVector.{IndexVal, index_val}
use monya.IndexVector.Order.{ordered_insert}
use monya.NnVector.{NnVector}
use monya.NnVector
use monya.NnVector.Refinement.{Represents, eval-Represents}
use monya.Query.{Stack, push, pop, split_back, split_from, ProximityQuery, eval, eval_at}

split_from_back :
    {A : Type 0} (y : A) (xs : List A) (x : A) → split_from y (xs ++ x ∷ []) ≡ ok (y ∷ xs, x)
unfolding split_from
split_from_back y [] x = refl
split_from_back y (z ∷ xs) x = rw (split_from_back z xs x) refl

split_back-append : {A : Type 0} (xs : List A) (x : A) → split_back (xs ++ x ∷ []) ≡ ok (xs, x)
unfolding split_back split_from
split_back-append [] x = refl
split_back-append (y ∷ xs) x = split_from_back y xs x

-- `pop` after `push` returns the element and the stack before.
pub pop-push : {A : Type 0} (s : Stack A) (x : A) → pop (push s x) ≡ ok (s, x)
unfolding pop push
pop-push s x = rw (split_back-append s.elems x) refl

module _ {D : Type 0} (s : Scalar D) where
  -- list by list, what the vectors of the trees stand for, each with its bound
  abbrev pub AllRepresent : ℕ → List (NnVector D) → List (List (IndexVal D)) → Type 0
  AllRepresent k [] [] = Unit
  AllRepresent k [] (l ∷ ls) = ⊥
  AllRepresent k (v ∷ vs) [] = ⊥
  AllRepresent k (v ∷ vs) (l ∷ ls) = Represents v l × (v.k ≡ k) × AllRepresent k vs ls

  eval_at-AllRepresent :
      (k : ℕ) (vs : List (NnVector D)) (ls : List (List (IndexVal D))) (tree_id id : ℕ) (dist : D)
      (l : List (IndexVal D))
      → AllRepresent k vs ls
      → get_elem? ls tree_id ≡ some l
      → Returns
          (λ ws.
            AllRepresent k ws (set ls tree_id (take k (ordered_insert s (index_val id dist) l))))
          (eval_at s vs tree_id id dist)
  unfolding eval_at
  eval_at-AllRepresent k vs [] tree_id id dist l h e = cc
  eval_at-AllRepresent k [] (m ∷ ls) tree_id id dist l h e = absurd h
  eval_at-AllRepresent k (v ∷ vs) (m ∷ ls) zero id dist l h e =
      let same : m ≡ l = ground arith in
      bind-Returns _ (NnVector.eval s v (index_val id dist)) _
        (eval-Represents s v (index_val id dist) m h.0)
        λ w (r, bound). (
          subst (λ z. Represents w (take k (ordered_insert s (index_val id dist) z))) same
              (subst (λ n. Represents w (take n (ordered_insert s (index_val id dist) m))) h.1 r),
          bound ∙ h.1,
          h.2,
        )
  eval_at-AllRepresent k (v ∷ vs) (m ∷ ls) (suc tree_id) id dist l h e =
      bind-Returns _ (eval_at s vs tree_id id dist) _
        (eval_at-AllRepresent k vs ls tree_id id dist l h.2 e) λ ws r. (h.0, h.1, r)

  -- `eval` writes the list of one tree, and nothing else.
  pub eval-kept :
      (q : ProximityQuery D) (ls : List (List (IndexVal D))) (id : ℕ) (dist : D) (tree_id : ℕ)
      (l : List (IndexVal D))
      → AllRepresent q.k q.result ls
      → get_elem? ls tree_id ≡ some l
      → Returns
          (λ u.
            (u.k ≡ q.k)
            × (u.qsample ≡ q.qsample)
            × AllRepresent q.k u.result
                (set ls tree_id (take q.k (ordered_insert s (index_val id dist) l))))
          (eval s q id dist tree_id)
  unfolding eval
  eval-kept q ls id dist tree_id l h e =
      bind-Returns _ (eval_at s q.result tree_id id dist) _
        (eval_at-AllRepresent q.k q.result ls tree_id id dist l h e) λ ws r. (refl, refl, r)

  -- `eval` of a distance for a tree that the query has returns; that tree's list becomes the first
  -- `k` of the ordered insertion, and the lists of the other trees stay as they are.
  pub eval-AllRepresent :
      (q : ProximityQuery D) (ls : List (List (IndexVal D))) (id : ℕ) (dist : D) (tree_id : ℕ)
      (l : List (IndexVal D))
      → AllRepresent q.k q.result ls
      → get_elem? ls tree_id ≡ some l
      → Returns
          (λ u.
            AllRepresent q.k u.result
              (set ls tree_id (take q.k (ordered_insert s (index_val id dist) l))))
          (eval s q id dist tree_id)
  eval-AllRepresent q ls id dist tree_id l h e =
      Returns-mono _ (eval s q id dist tree_id) (eval-kept q ls id dist tree_id l h e) λ u k. k.2
