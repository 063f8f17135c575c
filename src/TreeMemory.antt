-- ===== src/TreeMemory.antt =====
-- The nodes that the trees of src/structures link: `BinaryNode` of BinaryNode.hpp with the
-- `comparator` of NodeView.hpp, and the `color` of RBNode.hpp. One map for each member; a read or
-- write through a pointer that is not live faults.
use monya.Prelude.{
  ℕ, Bool, false, ◌||◌, not, Run, ok, fault, Ptr, null, update, ◌==◌, if◌then◌else◌, ◌>>=◌,
}

pub record Mem (D : Type 0) : Type 0 where
  pub live : Ptr → Bool
  pub comparator : Ptr → D
  pub parent : Ptr → Ptr
  pub left : Ptr → Ptr
  pub right : Ptr → Ptr
  -- `color`: 1 is red, 0 is black
  pub color : Ptr → ℕ

-- `bchild_t`
pub data BChild : Type 0 where
  left_child right_child : BChild

module _ {D : Type 0} where
  abbrev pub deref {ℓ} : {A : Type ℓ} → Mem D → Ptr → A → Run A
  deref m p a = if m.live p then ok a else fault

  unfoldable pub get_comparator : Mem D → Ptr → Run D
  get_comparator m p = deref m p (m.comparator p)

  unfoldable pub get_parent : Mem D → Ptr → Run Ptr
  get_parent m p = deref m p (m.parent p)

  unfoldable pub get_left : Mem D → Ptr → Run Ptr
  get_left m p = deref m p (m.left p)

  unfoldable pub get_right : Mem D → Ptr → Run Ptr
  get_right m p = deref m p (m.right p)

  unfoldable pub get_color : Mem D → Ptr → Run ℕ
  get_color m p = deref m p (m.color p)

  unfoldable pub set_parent : Mem D → Ptr → Ptr → Run (Mem D)
  set_parent m p q = deref m p (record m { parent = update m.parent p q })

  unfoldable pub set_left : Mem D → Ptr → Ptr → Run (Mem D)
  set_left m p q = deref m p (record m { left = update m.left p q })

  unfoldable pub set_right : Mem D → Ptr → Ptr → Run (Mem D)
  set_right m p q = deref m p (record m { right = update m.right p q })

  unfoldable pub set_color : Mem D → Ptr → ℕ → Run (Mem D)
  set_color m p c = deref m p (record m { color = update m.color p c })

  -- `delete p`
  unfoldable pub delete : Mem D → Ptr → Run (Mem D)
  delete m p = deref m p (record m { live = update m.live p false })

  -- `BinaryNode::has_child`
  unfoldable pub has_child : Mem D → Ptr → Run Bool
  unfolding get_left get_right
  has_child m p = do l ← get_left m p; r ← get_right m p; ok (not (l == null) || not (r == null))
