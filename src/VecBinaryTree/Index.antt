-- ===== src/VecBinaryTree/Index.antt =====
-- The positions of the children, and where `insert_at` puts a node.
use monya.Prelude.{
  ℕ, zero, suc, ◌+◌, ◌*◌, ◌^◌, ◌<◌, ◌≤◌, ◌≡◌, refl, ap, none, some, List, [], ◌∷◌, ◌++◌, arith, ok,
  fault, ◌==◌, if◌then◌else◌, Bool-cases, inl, inr, length, get_elem?,
}
use monya.TreeMemory.{BChild, left_child, right_child}
use monya.VecBinaryTree.{
  VecNode, VecBinaryTree, get_child_idx, get_parent_idx, get_at_idx, insert_at,
}

-- Where no position wraps, the parent of a child's position is the position it was computed from, on
-- both sides; the right child follows the left one, and both come after their parent.
pub get_parent_idx-get_child_idx :
    (i : ℕ) (pos : BChild)
    → 2 * i + 2 < 2 ^ 64
    → (get_parent_idx (get_child_idx i pos) ≡ i)
      × (get_child_idx i right_child ≡ suc (get_child_idx i left_child))
      × (i < get_child_idx i pos)
unfolding get_parent_idx get_child_idx
get_parent_idx-get_child_idx i left_child h = (omega arith, omega arith, omega arith)
get_parent_idx-get_child_idx i right_child h = (omega arith, omega arith, omega arith)

module _ {D : Type 0} where
  at_back :
      (xs : List (VecNode D)) (x : VecNode D) (k : ℕ)
      → k ≡ length xs
      → get_elem? (xs ++ x ∷ []) k ≡ some x
  at_back [] x zero e = refl
  at_back [] x (suc k) e = absurd (omega arith)
  at_back (y ∷ xs) x zero e = absurd (omega arith)
  at_back (y ∷ xs) x (suc k) e = at_back xs x k (omega arith)

  past_back :
      (xs : List (VecNode D)) (x : VecNode D) (k : ℕ)
      → length xs < k
      → get_elem? (xs ++ x ∷ []) k ≡ none
  past_back [] x zero h = absurd (omega arith)
  past_back [] x (suc k) h = refl
  past_back (y ∷ xs) x zero h = absurd (omega arith)
  past_back (y ∷ xs) x (suc k) h = past_back xs x k (omega arith)

  -- While the vector has not grown past the child's position, a read there after `insert_at` gives
  -- the new node if the vector had filled up to it, and else is out of bounds.
  pub insert_at-get_at_idx :
      (t : VecBinaryTree D) (new_node : VecNode D) (i : ℕ) (pos : BChild)
      → length t.nodes ≤ get_child_idx i pos
      → get_at_idx (insert_at t new_node i pos) (get_child_idx i pos) ≡ (
          if length t.nodes == get_child_idx i pos
          then ok (record new_node { vecpos = get_child_idx i pos })
          else fault)
  unfolding get_at_idx insert_at
  insert_at-get_at_idx t new_node i pos h =
      let k = get_child_idx i pos in
      let node : VecNode D = record new_node { vecpos = k } in
      elim (Bool-cases (length t.nodes == k)) [
        | inl e ↦ rw e (
            ap (λ o. elim o [ none ↦ fault | some n ↦ ok n ])
              (at_back t.nodes node k (ground arith)))
        | inr e ↦ rw e (
            ap (λ o. elim o [ none ↦ fault | some n ↦ ok n ])
              (past_back t.nodes node k (ground arith)))
      ]
