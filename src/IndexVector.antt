-- ===== src/IndexVector.antt =====
-- `IndexVal` and `IndexVector` of src/common/types.hpp: samples' indexes with a value each, and a
-- vector of them that remembers whether it has been sorted. `std::sort`, `__gnu_parallel::sort` and
-- `std::binary_search` are the fields of `Algorithms`; `IsAlgorithms` is what the standard says of
-- them.
pub mod Order
pub mod Unique
pub mod Laws
pub mod Tests
use monya.Prelude.{
  ℕ, zero, suc, ◌+◌, ◌-◌, ◌%◌, ◌^◌, ◌≡◌, ◌↔◌, Bool, true, false, not, Option, none, some, List, [],
  ◌∷◌, ◌++◌, map, Run, ok, fault, out_of_fuel, assertion, ◌>>=◌, ◌>>◌, require, Scalar, ltb, leb,
  if◌then◌else◌, length, get_elem?, take, drop, set,
}

pub record IndexVal (D : Type 0) : Type 0 where
  pub index : ℕ
  pub val : D

abbrev pub index_val : {D : Type 0} → ℕ → D → IndexVal D
index_val i v = record { index = i; val = v }

pub record Algorithms (D : Type 0) : Type 0 where
  pub sort : List (IndexVal D) → List (IndexVal D)
  pub parallel_sort : List (IndexVal D) → List (IndexVal D)
  pub binary_search : List (IndexVal D) → IndexVal D → Bool

pub record IndexVector (D : Type 0) : Type 0 where
  pub items : List (IndexVal D)
  pub sorted : Bool

-- a `long` converted to the `int` of `operator[]`, which is then converted to `size_t`
unfoldable pub int_index : ℕ → ℕ
int_index i = if ltb (i % 2 ^ 32) (2 ^ 31) then i % 2 ^ 32 else i % 2 ^ 32 + (2 ^ 64 - 2 ^ 32)

module _ {D : Type 0} where
  -- `IndexVector()`
  unfoldable pub create : IndexVector D
  create = record { items = []; sorted = false }

  -- what `reinterpret` of a fetched array gives: contiguous indexes from `i` on,
  -- fewer than 2 ^ 32
  unfoldable pub contiguous : ℕ → List D → List (IndexVal D)
  contiguous i [] = []
  contiguous i (v ∷ vs) = index_val i v ∷ contiguous (suc i) vs

  -- `IndexVector(const std::vector<data_t>&)`
  pub from_values : List D → IndexVector D
  from_values vals = record { items = contiguous 0 vals; sorted = false }

  -- `operator[]`, whose argument is an `int`. A caller that has a longer number converts it by
  -- `int_index` where it can be 2 ^ 31 or more.
  unfoldable pub get : IndexVector D → ℕ → Run (IndexVal D)
  get v i = elim (get_elem? v.items i) [ none ↦ fault | some iv ↦ ok iv ]

  -- `set_indexes(const data_t*, size_t)`: the `sorted` member is not touched
  unfoldable pub set_indexes_values : IndexVector D → List D → IndexVector D
  set_indexes_values v vals = record v { items = contiguous 0 vals }

  unfoldable pub get_indexes : IndexVector D → List ℕ → Run (List ℕ)
  get_indexes v out = do
    require (leb (length out) 0) assertion
    ok (out ++ map (λ iv. iv.index) v.items)

  unfoldable pub append : IndexVector D → IndexVal D → IndexVector D
  append v iv = record v { items = v.items ++ iv ∷ [] }

  unfoldable pub size : IndexVector D → ℕ
  size v = length v.items

  -- `_.insert(begin() + offset, item)`
  unfoldable pub insert : IndexVector D → IndexVal D → ℕ → Run (IndexVector D)
  insert v item offset =
      if leb offset (length v.items)
      then ok (record v { items = take offset v.items ++ item ∷ drop offset v.items })
      else fault

  abbrev pub copies : ℕ → IndexVal D → List (IndexVal D)
  copies zero iv = []
  copies (suc n) iv = iv ∷ copies n iv

  -- `trim`, where `blank` is what the default constructor leaves
  unfoldable pub trim : IndexVal D → IndexVector D → ℕ → IndexVector D
  trim blank v nelem = record v {
    items = take nelem v.items ++ copies (nelem - length v.items) blank;
  }

  pub empty : IndexVector D → Bool
  empty v = leb (length v.items) 0

  pub set_sorted : IndexVector D → Bool → IndexVector D
  set_sorted v sorted = record v { sorted = sorted }

  -- `sort()`
  unfoldable pub sort : Algorithms D → IndexVector D → IndexVector D
  sort a v = record { items = a.sort v.items; sorted = true }

  -- `find` sorts first, unless the flag says that it need not.
  unfoldable pub find : Algorithms D → IndexVector D → IndexVal D → IndexVector D × Bool
  find a v iv =
      let w : IndexVector D = if v.sorted then v else sort a v in (w, a.binary_search w.items iv)

module _ {D : Type 0} (s : Scalar D) where
  -- `operator<`, `operator==`, `operator!=` of `IndexVal`, by the value alone
  abbrev pub val_lt : IndexVal D → IndexVal D → Bool
  val_lt a b = s.lt a.val b.val

  abbrev pub val_eq : IndexVal D → IndexVal D → Bool
  val_eq a b = s.eq a.val b.val

  abbrev pub val_ne : IndexVal D → IndexVal D → Bool
  val_ne a b = not (s.eq a.val b.val)

  -- the list of placeholders `IndexVal(idx, 0)`
  unfoldable pub placeholders : List ℕ → List (IndexVal D)
  placeholders = map (λ i. index_val i s.zero_value)

  -- `IndexVector(const std::vector<sample_id_t>&)`
  pub from_indexes : List ℕ → IndexVector D
  from_indexes v = record { items = placeholders v; sorted = false }

  -- `set_indexes(const sample_id_t*, size_t)`
  unfoldable pub set_indexes : IndexVector D → List ℕ → IndexVector D
  set_indexes v idxs = record v { items = placeholders idxs }

  -- The loop of `resize`: its bound `nelem - size()` is read anew in each round.
  resize_loop : ℕ → ℕ → ℕ → List (IndexVal D) → Run (List (IndexVal D))
  resize_loop zero i nelem items = out_of_fuel
  resize_loop (suc fuel) i nelem items =
      let rest = resize_loop fuel (i + 1) nelem (items ++ index_val 0 s.zero_value ∷ []) in
      if ltb i (nelem - length items) then rest else ok items

  pub resize : IndexVector D → ℕ → Run (IndexVector D)
  resize v nelem = do
    require (leb (length v.items) nelem) assertion
    items ← resize_loop (nelem + 1) 0 nelem v.items
    ok (record v { items = items })

  -- `IndexVector(size_t nelem)`
  pub create_sized : ℕ → Run (IndexVector D)
  create_sized nelem = resize create nelem
