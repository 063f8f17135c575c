-- ===== src/NnVector.antt =====
-- `NNVector` of src/common/NNVector.hpp: the k nearest neighbours as a circular doubly linked list
-- through a sentinel, with a cache of the last position read. Nodes live in an explicit memory with
-- one map for each member of `Node`; a read or write through a pointer that is not live faults.
-- Addresses are numbers, 0 is NULL, and `new` gives the next address never given before. Each loop
-- runs on fuel.
pub mod Reads
pub mod Chain
pub mod Holds
pub mod Eval
pub mod PopBack
pub mod Refinement
pub mod Access
pub mod Walks
pub mod Tests
pub use monya.Prelude.{Ptr, null, update}
use monya.Prelude.{
  ℕ, zero, suc, ◌+◌, ◌-◌, ◌%◌, ◌^◌, Bool, true, false, not, ◌&&◌, Run, ok, throw, fault,
  out_of_fuel, runtime_error, ◌>>=◌, ◌>>◌, require, Scalar, ltb, leb, ◌==◌, if◌then◌else◌,
}
use monya.IndexVector.{IndexVal, val_lt, val_eq, val_ne}
use monya.IndexVector

-- the nodes: `prev`, `next` and `data` of each address, which addresses are allocated, and the
-- first address not given out yet
pub record Mem (D : Type 0) : Type 0 where
  pub live : Ptr → Bool
  pub prev : Ptr → Ptr
  pub next : Ptr → Ptr
  pub value : Ptr → IndexVal D
  pub fresh : Ptr

pub record NnVector (D : Type 0) : Type 0 where
  pub mem : Mem D
  pub sentinel : Ptr
  pub cache_index : ℕ
  pub cache_node : Ptr
  pub k : ℕ
  pub size : ℕ

module _ {D : Type 0} where
  abbrev pub deref {ℓ} : {A : Type ℓ} → Mem D → Ptr → A → Run A
  deref m p a = if m.live p then ok a else fault

  -- `p->next`, `p->prev`, `p->data`
  unfoldable pub get_next : Mem D → Ptr → Run Ptr
  get_next m p = deref m p (m.next p)

  unfoldable pub get_prev : Mem D → Ptr → Run Ptr
  get_prev m p = deref m p (m.prev p)

  unfoldable pub get_data : Mem D → Ptr → Run (IndexVal D)
  get_data m p = deref m p (m.value p)

  -- `p->next = q`, `p->prev = q`
  unfoldable pub set_next : Mem D → Ptr → Ptr → Run (Mem D)
  set_next m p q = deref m p (record m { next = update m.next p q })

  unfoldable pub set_prev : Mem D → Ptr → Ptr → Run (Mem D)
  set_prev m p q = deref m p (record m { prev = update m.prev p q })

  -- `new Node(iv)`, with its address `m.fresh`
  unfoldable pub new_node : Mem D → IndexVal D → Mem D
  new_node m iv = record m {
    live = update m.live m.fresh true;
    prev = update m.prev m.fresh null;
    next = update m.next m.fresh null;
    value = update m.value m.fresh iv;
    fresh = suc m.fresh;
  }

  -- `delete p`
  unfoldable pub delete_node : Mem D → Ptr → Run (Mem D)
  delete_node m p = deref m p (record m { live = update m.live p false })

  -- `push_back(Node*)`
  unfoldable pub push_back : NnVector D → Ptr → Run (NnVector D)
  unfolding get_next get_prev set_next set_prev
  push_back v node =
      if v.size == 0
      then (do
        m ← set_prev v.mem node v.sentinel
        m ← set_next m node v.sentinel
        m ← set_prev m v.sentinel node
        m ← set_next m v.sentinel node
        ok (record v { mem = m; size = v.size + 1 }))
      else do
        back ← get_prev v.mem v.sentinel
        m ← set_next v.mem node v.sentinel
        m ← set_prev m node back
        m ← set_next m back node
        m ← set_prev m v.sentinel node
        ok (record v { mem = m; size = v.size + 1 })

  unfoldable pub invalidate_cache : NnVector D → NnVector D
  invalidate_cache v = record v { cache_node = null }

  unfoldable pub update_cache : NnVector D → ℕ → Ptr → NnVector D
  update_cache v index node = record v { cache_index = index; cache_node = node }

  unfoldable pub pop_back : NnVector D → Run (NnVector D)
  unfolding get_next get_prev set_next set_prev delete_node invalidate_cache
  pop_back v = if v.size == 0 then ok v else do
    delnode ← get_prev v.mem v.sentinel
    if delnode == v.sentinel then ok v else do
      before ← get_prev v.mem delnode
      m ← set_next v.mem before v.sentinel
      before ← get_prev m delnode
      m ← set_prev m v.sentinel before
      m ← delete_node m delnode
      ok (invalidate_cache (record v { mem = m; size = v.size - 1 }))

  -- The body of the walk's test: the new node goes between `curr->prev` and `curr`.
  unfoldable pub insert_before : NnVector D → Ptr → IndexVal D → Run (NnVector D)
  unfolding get_next get_prev set_next set_prev new_node
  insert_before v curr iv = do
    let node = v.mem.fresh
    let m = new_node v.mem iv
    before ← get_prev m curr
    m ← set_next m before node
    before ← get_prev m curr
    m ← set_prev m node before
    m ← set_prev m curr node
    m ← set_next m node curr
    ok (record v { mem = m; size = v.size + 1 })

module _ {D : Type 0} (s : Scalar D) where
  -- `NNVector(k)`: the sentinel is the first node, with the largest value.
  unfoldable pub create : ℕ → NnVector D
  create k = record {
    mem = record {
      live = update (λ _. false) 1 true;
      prev = update (λ _. null) 1 1;
      next = update (λ _. null) 1 1;
      value = λ _. record { index = 0; val = s.max_value };
      fresh = 2;
    };
    sentinel = 1;
    cache_index = 0;
    cache_node = null;
    k = k;
    size = 0;
  }

  -- the walk of `eval`, with whether it has inserted
  unfoldable pub eval_loop : ℕ → NnVector D → Ptr → IndexVal D → Run (NnVector D × Bool)
  eval_loop zero v curr iv = out_of_fuel
  eval_loop (suc fuel) v curr iv = if curr == v.sentinel then ok (v, false) else do
    data_ ← get_data v.mem curr
    if val_lt s iv data_
        then (do w ← insert_before v curr iv; ok (w, true))
        else do after ← get_next v.mem curr; eval_loop fuel v after iv

  -- `eval` up to the test of the size
  unfoldable pub eval_insert : NnVector D → IndexVal D → Run (NnVector D)
  unfolding get_next set_next set_prev new_node
  eval_insert v iv =
      if v.size == 0
      then (do
        let node = v.mem.fresh
        let m = new_node v.mem iv
        m ← set_next m v.sentinel node
        m ← set_prev m node v.sentinel
        m ← set_prev m v.sentinel node
        m ← set_next m node v.sentinel
        ok (record v { mem = m; size = v.size + 1 }))
      else do
        curr ← get_next v.mem v.sentinel
        (w, insert_flag) ← eval_loop (v.size + 1) v curr iv
        if ltb w.size w.k && not insert_flag
            then push_back (record w { mem = new_node w.mem iv }) w.mem.fresh
            else ok w

  -- `eval(IndexVal)`
  unfoldable pub eval : NnVector D → IndexVal D → Run (NnVector D)
  eval v iv = do
    w ← eval_insert v iv
    w ← if ltb w.k w.size then pop_back w else ok w
    ok (invalidate_cache w)
