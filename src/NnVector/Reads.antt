-- ===== src/NnVector/Reads.antt =====
-- What `NNVector` of src/common/NNVector.hpp answers: `operator[]` through its cache, the walks of
-- `to_IndexVector` and `find`, and the comparisons.
use monya.Prelude.{Ptr, null}
use monya.Prelude.{
  ℕ, zero, suc, ◌+◌, ◌-◌, ◌%◌, ◌^◌, Bool, true, false, not, Run, ok, out_of_fuel, runtime_error,
  ◌>>=◌, ◌>>◌, require, Scalar, ltb, leb, ◌==◌, if◌then◌else◌,
}
use monya.IndexVector.{IndexVal, val_lt, val_eq, val_ne}
use monya.IndexVector
use monya.NnVector.{Ptr, null, Mem, NnVector, get_next, get_data, update_cache}

module _ {D : Type 0} where
  -- `n` steps along `next`
  unfoldable pub advance : ℕ → Mem D → Ptr → Run Ptr
  advance zero m curr = ok curr
  advance (suc n) m curr = do after ← get_next m curr; advance n m after

  -- The node that `operator[]` stops at: from the cache where it serves, else from the sentinel.
  -- `index - 1` wraps at 0.
  unfoldable pub locate : NnVector D → ℕ → Run Ptr
  unfolding get_next advance
  locate v index =
      if v.cache_node == null
      then advance (index + 1) v.mem v.sentinel
      else if v.cache_index == (index + 2 ^ 64 - 1) % 2 ^ 64
      then get_next v.mem v.cache_node
      else if leb v.cache_index index
      then advance (index - v.cache_index) v.mem v.cache_node
      else advance (index + 1) v.mem v.sentinel

  -- `operator[]`
  unfoldable pub at : NnVector D → ℕ → Run (NnVector D × IndexVal D)
  at v index = do
    require (not (ltb v.size ((index + 1) % 2 ^ 64))) runtime_error
    curr ← locate v index
    iv ← get_data v.mem curr
    ok (update_cache v index curr, iv)

  -- The walk of `to_IndexVector`: the loop does not advance `curr`.
  unfoldable pub to_index_vector_loop :
      ℕ → NnVector D → Ptr → IndexVector.IndexVector D → Run (IndexVector.IndexVector D)
  to_index_vector_loop zero v curr ret = out_of_fuel
  to_index_vector_loop (suc fuel) v curr ret =
      if curr == v.sentinel
      then ok ret
      else do iv ← get_data v.mem curr; to_index_vector_loop fuel v curr (IndexVector.append ret iv)

  unfoldable pub to_index_vector : ℕ → NnVector D → Run (IndexVector.IndexVector D)
  unfolding to_index_vector_loop get_next
  to_index_vector fuel v = do
    curr ← get_next v.mem v.sentinel
    to_index_vector_loop fuel v curr IndexVector.create

  pub size : NnVector D → ℕ
  size v = v.size

  pub empty : NnVector D → Bool
  empty v = v.size == 0

module _ {D : Type 0} (s : Scalar D) where
  -- The walk of `find`: this loop does not advance `curr` either.
  unfoldable pub find_loop : ℕ → NnVector D → Ptr → IndexVal D → Run Bool
  find_loop zero v curr iv = out_of_fuel
  find_loop (suc fuel) v curr iv = if curr == v.sentinel then ok false else do
    data_ ← get_data v.mem curr
    if val_eq s data_ iv then ok true else find_loop fuel v curr iv

  unfoldable pub find : ℕ → NnVector D → IndexVal D → Run Bool
  unfolding find_loop get_next
  find fuel v iv = do curr ← get_next v.mem v.sentinel; find_loop fuel v curr iv

  -- The loop of `operator==(NNVector&)` from position `i` on, `n` positions left: each read moves
  -- the cache of its vector.
  unfoldable pub equals_loop :
      ℕ → ℕ → NnVector D → NnVector D → Run (NnVector D × NnVector D × Bool)
  equals_loop zero i v other = ok (v, other, true)
  equals_loop (suc n) i v other = do
    (other, a) ← at other i
    (v, b) ← at v i
    if val_ne s a b then ok (v, other, false) else equals_loop n (i + 1) v other

  unfoldable pub equals : NnVector D → NnVector D → Run (NnVector D × NnVector D × Bool)
  unfolding equals_loop
  equals v other =
      if other.size == v.size then equals_loop v.size 0 v other else ok (v, other, false)

  -- The loop of `operator==(IndexVector&)`.
  unfoldable pub equals_vector_loop :
      ℕ → ℕ → NnVector D → IndexVector.IndexVector D → Run (NnVector D × Bool)
  equals_vector_loop zero i v iv = ok (v, true)
  equals_vector_loop (suc n) i v iv = do
    a ← IndexVector.get iv i
    (v, b) ← at v i
    if val_ne s a b then ok (v, false) else equals_vector_loop n (i + 1) v iv

  unfoldable pub equals_vector : NnVector D → IndexVector.IndexVector D → Run (NnVector D × Bool)
  unfolding equals_vector_loop
  equals_vector v iv =
      if IndexVector.size iv == v.size then equals_vector_loop v.size 0 v iv else ok (v, false)
