-- ===== src/RbTree/Delete.antt =====
-- `_delete` of src/structures/RBTree.cpp: search, removal and the loop that means to rebalance.
use monya.Prelude.{
  ℕ, zero, suc, not, Run, ok, out_of_fuel, ◌>>=◌, Scalar, Ptr, null, ◌==◌, if◌then◌else◌,
}
use monya.TreeMemory.{
  Mem, get_comparator, get_parent, get_left, get_right, get_color, set_parent, set_left, set_right,
  set_color, delete,
}
use monya.RbTree.{RbTree, rotate, child, transplant, minimum}

module _ {D : Type 0} (s : Scalar D) where
  -- The search of `_delete` stops at a null pointer instead of throwing.
  unfoldable pub delete_search : ℕ → Mem D → D → Ptr → Run Ptr
  delete_search zero m shell node = out_of_fuel
  delete_search (suc fuel) m shell node = if node == null then ok null else do
    c ← get_comparator m node
    if s.lt shell c
        then (do l ← get_left m node; delete_search fuel m shell l)
        else if s.lt c shell
        then (do r ← get_right m node; delete_search fuel m shell r)
        else ok node

module _ {D : Type 0} where
  -- The branch of `_delete` for a node with two children: `old` takes its place.
  replace : ℕ → RbTree D → Ptr → Run (RbTree D × Ptr × ℕ)
  unfolding minimum transplant get_color get_parent get_left get_right set_parent set_left set_right
      set_color
  replace fuel t node = do
    r ← get_right t.mem node
    old ← minimum fuel t.mem r
    original ← get_color t.mem old
    sub ← get_right t.mem old
    p ← get_parent t.mem old
    t ← if p == node then (do m ← set_parent t.mem sub node; ok (record t { mem = m })) else do
      t ← transplant t old sub
      r ← get_right t.mem node
      m ← set_right t.mem old r
      m ← set_parent m r old
      ok (record t { mem = m })
    t ← transplant t node old
    l ← get_left t.mem node
    m ← set_left t.mem old l
    m ← set_parent m l old
    c ← get_color m node
    m ← set_color m old c
    ok (record t { mem = m }, old, original)

  -- One round of the loop of `_delete`, with the next `old`. The test `0 == side ? … : …` reads as
  -- `(0 == side) ? … : …`.
  delete_step : RbTree D → Ptr → Run (RbTree D × Ptr)
  unfolding get_parent get_left get_right get_color set_color rotate child
  delete_step t old = do
    p ← get_parent t.mem old
    pl ← get_left t.mem p
    let side = old == pl
    sibling ← child (not side) t.mem p
    c ← get_color t.mem sibling
    (t, sibling) ←
        if c == 1
        then (do
          m ← set_color t.mem sibling 0
          m ← set_color m p 1
          t ← rotate side (record t { mem = m }) p
          p ← get_parent t.mem old
          sibling ← child (not side) t.mem p
          ok (t, sibling))
        else ok (t, sibling)
    l ← get_left t.mem sibling
    lc ← get_color t.mem l
    r ← get_right t.mem sibling
    rc ← if lc == 0 then get_color t.mem r else ok 0
    if rc == 1
        then (do m ← set_color t.mem sibling 1; p ← get_parent m old; ok (record t { mem = m }, p))
        else do
          near ← child side t.mem sibling
          nc ← get_color t.mem near
          (t, sibling) ← if nc == 0 then ok (t, sibling) else (do
            m ← set_color t.mem sibling 1
            near ← child side m sibling
            m ← set_color m near 0
            t ← rotate (not side) (record t { mem = m }) sibling
            p ← get_parent t.mem old
            sibling ← child (not side) t.mem p
            ok (t, sibling))
          p ← get_parent t.mem old
          pc ← get_color t.mem p
          m ← set_color t.mem sibling pc
          m ← set_color m p 0
          near ← child side m sibling
          m ← set_color m near 0
          t ← rotate side (record t { mem = m }) p
          ok (t, t.root)

  -- `while (old != root && old->color == 0)`
  unfoldable pub delete_loop : ℕ → RbTree D → Ptr → Run (RbTree D)
  unfolding delete_step
  delete_loop zero t old = out_of_fuel
  delete_loop (suc fuel) t old = if old == t.root then ok t else do
    c ← get_color t.mem old
    if c == 0 then (do (t, old) ← delete_step t old; delete_loop fuel t old) else ok t

  -- `_delete` from the removal of the found node on
  unfoldable pub remove_node : ℕ → RbTree D → Ptr → Run (RbTree D)
  unfolding replace
  remove_node fuel t node = do
    l ← get_left t.mem node
    r ← get_right t.mem node
    (t, old, original) ←
        if l == null
        then (do t ← transplant t node r; ok (t, null, 0))
        else if r == null
        then (do t ← transplant t node l; ok (t, null, 0))
        else replace fuel t node
    m ← delete t.mem node
    if original == 0 then delete_loop fuel (record t { mem = m }) old else ok (record t { mem = m })

module _ {D : Type 0} (s : Scalar D) where
  unfoldable pub delete_shell : ℕ → RbTree D → D → Run (RbTree D)
  delete_shell fuel t shell = do
    node ← delete_search s fuel t.mem shell t.root
    if node == null then ok t else do
      c ← get_comparator t.mem node
      if s.eq c shell then remove_node fuel t node else ok t
