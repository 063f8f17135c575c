-- ===== src/NodeView.antt =====
-- `NodeView` of src/structures/NodeView.hpp and NodeView.cpp: what a tree node holds of the samples.
-- `ioer` and `parent` are addresses; an operation that reads through `ioer` takes the matrix it
-- points at. A constructor takes the members that it leaves unset.
pub mod Prep
pub mod Tests
use monya.Prelude.{
  ℕ, zero, suc, ◌+◌, ◌-◌, ◌%◌, ◌^◌, Bool, true, false, not, Option, none, some, List, [], ◌∷◌, ◌++◌,
  Run, ok, throw, fault, not_implemented_exception, assertion, ◌>>=◌, ◌>>◌, require, Scalar, Ptr,
  null, ltb, ◌==◌, if◌then◌else◌, length, get_elem?, take,
}
use monya.IndexVector
use monya.IndexVector.{IndexVal, index_val, IndexVector, Algorithms}
use monya.MemoryIo
use monya.MemoryIo.{MemoryIo}

pub record NodeView (D : Type 0) : Type 0 where
  pub data_index : IndexVector D
  pub req_indxs : List ℕ
  pub comparator : D
  pub depth : ℕ
  pub ioer : Ptr
  pub parent : Ptr

-- the indexes from `start` on, `n` of them
unfoldable pub index_range : ℕ → ℕ → List ℕ
index_range zero start = []
index_range (suc n) start = start ∷ index_range n (start + 1)

module _ {D : Type 0} where
  -- `NodeView()`
  pub create : D → Ptr → Ptr → NodeView D
  create comparator ioer parent = record {
    data_index = IndexVector.create;
    req_indxs = [];
    comparator = comparator;
    depth = 0;
    ioer = ioer;
    parent = parent;
  }

  -- `NodeView(IndexVector&)`
  pub create_with_index : D → Ptr → Ptr → IndexVector D → NodeView D
  create_with_index comparator ioer parent data_index = record (create comparator ioer parent) {
    data_index = data_index;
  }

  pub query : NodeView D → Run (NodeView D)
  query v = throw not_implemented_exception

  pub set_index_range : NodeView D → ℕ → ℕ → NodeView D
  set_index_range v start_idx stop_idx = record v {
    req_indxs = v.req_indxs ++ index_range (stop_idx - start_idx) start_idx;
  }

  -- `set_index(const std::vector<sample_id_t>&)`
  pub set_indexes : NodeView D → List ℕ → NodeView D
  set_indexes v indxs = record v { req_indxs = indxs }

  -- `set_index(const sample_id_t*, size_t)`: before those that are there
  pub set_index_array : NodeView D → List ℕ → NodeView D
  set_index_array v indxs = record v { req_indxs = indxs ++ v.req_indxs }

  -- `set_index(const sample_id_t)`
  unfoldable pub set_index : NodeView D → ℕ → NodeView D
  set_index v index = record v { req_indxs = index ∷ [] }

  pub data_index_append : NodeView D → ℕ → D → NodeView D
  data_index_append v idx val = record v {
    data_index = IndexVector.append v.data_index (index_val idx val);
  }

  unfoldable pub set_ioer : NodeView D → Ptr → NodeView D
  set_ioer v ioer = record v { ioer = ioer }

  unfoldable pub get_ioer : NodeView D → Run Ptr
  get_ioer v = do require (not (v.ioer == null)) assertion; ok v.ioer

  unfoldable pub set_depth : NodeView D → ℕ → NodeView D
  set_depth v depth = record v { depth = depth }

  unfoldable pub get_depth : NodeView D → ℕ
  get_depth v = v.depth

  -- The loop of `prep` over the placeholders: `set_val(ret[idx])`.
  unfoldable pub fill : List D → List (IndexVal D) → Run (List (IndexVal D))
  fill ret [] = ok []
  fill ret (iv ∷ ivs) = do
    x ← MemoryIo.in_bounds (get_elem? ret iv.index)
    rest ← fill ret ivs
    ok (index_val iv.index x ∷ rest)

  -- what follows the fetch of the column
  unfoldable pub set_column : MemoryIo D → NodeView D → List D → Run (NodeView D)
  set_column io v ret =
      if length v.data_index.items == 0
      then ok (record v {
        data_index = IndexVector.set_indexes_values v.data_index (take io.dim.0 ret);
      })
      else do
        items ← fill ret v.data_index.items
        ok (record v { data_index = record v.data_index { items = items } })

  -- `prep`, with the matrix at `ioer`
  unfoldable pub prep : MemoryIo D → NodeView D → Run (NodeView D)
  prep io v = do
    require (length v.req_indxs == 1) assertion
    req ← MemoryIo.in_bounds (get_elem? v.req_indxs 0)
    ret ← MemoryIo.get_col io req
    set_column io v ret

  -- `sort_data_index` sorts the items; it does not set their flag.
  unfoldable pub sort_data_index : Algorithms D → Bool → NodeView D → NodeView D
  sort_data_index a par v = record v {
    data_index = record v.data_index {
      items = if par then a.parallel_sort v.data_index.items else a.sort v.data_index.items;
    };
  }

  unfoldable pub set_comparator : NodeView D → D → NodeView D
  set_comparator v comparator = record v { comparator = comparator }

  unfoldable pub get_comparator : NodeView D → D
  get_comparator v = v.comparator

  pub is_root : NodeView D → Bool
  is_root v = v.depth == 0

module _ {D : Type 0} (s : Scalar D) where
  -- `set_ph_data_index`
  unfoldable pub set_ph_data_index : NodeView D → List ℕ → NodeView D
  set_ph_data_index v indxs = record v { data_index = IndexVector.set_indexes s v.data_index indxs }

  -- `operator==`, `operator!=`, `operator<`, `operator>`, `operator<=` and `operator>=`
  pub node_eq : NodeView D → NodeView D → Bool
  node_eq v other = s.eq v.comparator other.comparator

  pub node_ne : NodeView D → NodeView D → Bool
  node_ne v other = not (s.eq v.comparator other.comparator)

  pub node_lt : NodeView D → NodeView D → Bool
  node_lt v other = s.lt v.comparator other.comparator

  pub node_gt : NodeView D → NodeView D → Bool
  node_gt v other = s.lt other.comparator v.comparator

  pub node_le : NodeView D → NodeView D → Bool
  node_le v other = not (s.lt other.comparator v.comparator)

  pub node_ge : NodeView D → NodeView D → Bool
  node_ge v other = not (s.lt v.comparator other.comparator)

  -- `bestow`, of the node at address `this`
  unfoldable pub bestow : NodeView D → Ptr → NodeView D → Run (NodeView D)
  unfolding set_ioer set_depth
  bestow v this node = do
    let node = record node { parent = this }
    let node = set_ioer node v.ioer
    let node = set_depth node ((v.depth + 1) % 2 ^ 64)
    require (s.eq v.comparator v.comparator) assertion
    require (not (node.parent == null)) assertion
    require (not (node.ioer == null)) assertion
    require (ltb 0 node.depth) assertion
    ok node
