-- ===== src/Query.antt =====
-- What a query is made of: `Stack` of src/structures/Stack.hpp, `DenseVector` of
-- src/structures/SampleVector.hpp, `distance` of src/common/distance.hpp and `ProximityQuery` of
-- src/structures/Query.cpp, with one list of neighbours for each tree.
pub mod Distance
pub mod Eval
pub mod Tests
use monya.Prelude.{
  ℕ, zero, suc, ◌+◌, ◌-◌, ◌%◌, ◌^◌, ltb, Bool, not, Option, none, some, List, [], ◌∷◌, ◌++◌, Run,
  ok, fault, assertion, ◌>>=◌, ◌>>◌, require, Scalar, ◌==◌, if◌then◌else◌, length, get_elem?, take,
}
use monya.IndexVector.{index_val}
use monya.NnVector
use monya.NnVector.{NnVector}

pub record Stack {ℓ} (A : Type ℓ) : Type ℓ where
  pub elems : List A

module _ {ℓ} {A : Type ℓ} where
  unfoldable pub push : Stack A → A → Stack A
  push s elem = record s { elems = s.elems ++ elem ∷ [] }

  -- the last element of a list that begins with `x`, and those before it
  unfoldable pub split_from : A → List A → Run (List A × A)
  split_from x [] = ok ([], x)
  split_from x (y ∷ ys) = do (rest, back) ← split_from y ys; ok (x ∷ rest, back)

  unfoldable pub split_back : List A → Run (List A × A)
  split_back [] = fault
  split_back (x ∷ xs) = split_from x xs

  -- `pop` of an empty stack reads `_.back()` of an empty vector.
  unfoldable pub pop : Stack A → Run (Stack A × A)
  unfolding split_back
  pop s = do (rest, back) ← split_back s.elems; ok (record s { elems = rest }, back)

  pub stack_size : Stack A → ℕ
  stack_size s = length s.elems

  unfoldable pub stack_empty : Stack A → Bool
  stack_empty s = length s.elems == 0

pub record DenseVector (D : Type 0) : Type 0 where
  pub data_ : List D

module _ {D : Type 0} where
  -- `populate`: the first `nelem` entries of the array; a shorter one is read out of bounds
  pub populate : DenseVector D → List D → ℕ → Run (DenseVector D)
  populate v source nelem =
      if length (take nelem source) == nelem
      then ok (record v { data_ = take nelem source })
      else fault

  -- `operator[]`
  unfoldable pub entry : DenseVector D → ℕ → Run D
  entry v idx = elim (get_elem? v.data_ idx) [ none ↦ fault | some x ↦ ok x ]

  pub dense_size : DenseVector D → ℕ
  dense_size v = length v.data_

  unfoldable pub dense_empty : DenseVector D → Bool
  dense_empty v = length v.data_ == 0

  pub nnz : DenseVector D → ℕ
  nnz v = length v.data_

-- a number converted to `short` and then to `unsigned`
unfoldable pub short_unsigned : ℕ → ℕ
short_unsigned k = if ltb (k % 2 ^ 16) (2 ^ 15) then k % 2 ^ 16 else k % 2 ^ 16 + (2 ^ 32 - 2 ^ 16)

-- `k` is a `short`, here as the `unsigned` that the lists are made with: itself from 0 to 2 ^ 15 - 1,
-- and 2 ^ 32 more where it is negative.
pub record ProximityQuery (D : Type 0) : Type 0 where
  pub k : ℕ
  pub qsample : DenseVector D
  pub result : List (NnVector D)

module _ {D : Type 0} (s : Scalar D) where
  -- the sum of the squares in `euclidean`, of the first `nelem` entries
  unfoldable pub sum_squares : ℕ → List D → List D → D → Run D
  sum_squares zero arr other res = ok res
  sum_squares (suc n) (a ∷ arr) (b ∷ other) res =
      let tmp = s.sub a b in sum_squares n arr other (s.add res (s.mul tmp tmp))
  sum_squares (suc n) [] other res = fault
  sum_squares (suc n) (a ∷ arr) [] res = fault

  unfoldable pub euclidean : List D → List D → ℕ → Run D
  unfolding sum_squares
  euclidean arr other nelem = do res ← sum_squares nelem arr other s.zero_value; ok (s.sqrt res)

  -- a new list for each tree
  unfoldable pub new_results : ℕ → ℕ → List (NnVector D)
  new_results zero k = []
  new_results (suc ntree) k = NnVector.create s k ∷ new_results ntree k

  -- `ProximityQuery(qsample, k, ntree)`
  unfoldable pub create : DenseVector D → ℕ → ℕ → ProximityQuery D
  create qsample k ntree = record {
    k = short_unsigned k;
    qsample = qsample;
    result = new_results ntree (short_unsigned k);
  }

  -- `result[tree_id]->eval(id, dist)`
  unfoldable pub eval_at : List (NnVector D) → ℕ → ℕ → D → Run (List (NnVector D))
  eval_at [] tree_id id dist = fault
  eval_at (v ∷ vs) zero id dist = do v ← NnVector.eval s v (index_val id dist); ok (v ∷ vs)
  eval_at (v ∷ vs) (suc tree_id) id dist = do vs ← eval_at vs tree_id id dist; ok (v ∷ vs)

  -- `eval(id, dist, tree_id)`, of the index of a sample, which is below 2 ^ 32
  unfoldable pub eval : ProximityQuery D → ℕ → D → ℕ → Run (ProximityQuery D)
  eval q id dist tree_id = do
    result ← eval_at q.result tree_id id dist
    ok (record q { result = result })

-- `run`, with the `find_neighbors` of the program
unfoldable pub run :
    {D : Type 0}
    → (ProximityQuery D → Run (ProximityQuery D))
    → ProximityQuery D
    → Run (ProximityQuery D)
run find_neighbors q = do require (not (dense_empty q.qsample)) assertion; find_neighbors q
