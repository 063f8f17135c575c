-- ===== src/BruteForce.antt =====
-- `BruteForcekNN` of src/validate/BruteForcekNN.hpp: the k nearest neighbours from all distances. The
-- number `k` of neighbours, a `long`, is not negative.
pub mod Distances
pub mod Replace
pub mod Nearest
pub mod Few
pub mod Tests
use monya.Prelude.{
  ℕ, zero, suc, ◌+◌, ◌*◌, ◌%◌, ◌^◌, Option, none, some, List, Run, ok, ◌>>=◌, Scalar, ltb, ◌==◌,
  if◌then◌else◌, drop,
}
use monya.IndexVector
use monya.IndexVector.{IndexVal, index_val, IndexVector, Algorithms}
use monya.Query.{euclidean}

pub record BruteForce (D : Type 0) : Type 0 where
  pub data_ : List D
  pub nsamples : ℕ
  pub nfeatures : ℕ

-- `BruteForcekNN(data, nsamples, nfeatures)`: the number of samples is a `sample_id_t`
abbrev pub create : {D : Type 0} → List D → ℕ → ℕ → BruteForce D
create data_ nsamples nfeatures = record {
  data_ = data_;
  nsamples = nsamples % 2 ^ 32;
  nfeatures = nfeatures;
}

module _ {D : Type 0} (s : Scalar D) where
  -- `distance::euclidean(sample, &data[i*nfeatures], nfeatures)`
  unfoldable pub row_distance : BruteForce D → List D → ℕ → Run D
  row_distance b sample i = euclidean s sample (drop (i * b.nfeatures) b.data_) b.nfeatures

  -- the loop that looks for `repl_indx`, from position `j - 1` down; none is -1
  unfoldable pub find_repl : ℕ → IndexVector D → D → Option ℕ → Run (Option ℕ)
  find_repl zero nn dist repl_indx = ok repl_indx
  find_repl (suc j) nn dist repl_indx = do
    iv ← IndexVector.get nn (IndexVector.int_index j)
    find_repl j nn dist (if s.lt dist iv.val then some j else repl_indx)

  -- a sample after the first `k`
  unfoldable pub replace : ℕ → IndexVector D → ℕ → D → Run (IndexVector D)
  replace k nn i dist = do
    repl_indx ← find_repl k nn dist none
    elim repl_indx [ none ↦ ok nn | some j ↦ IndexVector.insert nn (index_val i dist) j ]

  -- one round, for sample `i`
  unfoldable pub round : Algorithms D → ℕ → IndexVector D → ℕ → D → Run (IndexVector D)
  round a k nn i dist =
      if ltb i (k % 2 ^ 32)
      then ok (IndexVector.append nn (index_val i dist))
      else replace k (if i == k % 2 ^ 32 then IndexVector.sort a nn else nn) i dist

  -- the loop over `n` samples from `i` on
  unfoldable pub samples_loop :
      Algorithms D → BruteForce D → List D → ℕ → ℕ → ℕ → IndexVector D → Run (IndexVector D)
  samples_loop a b sample k zero i nn = ok nn
  samples_loop a b sample k (suc n) i nn = do
    dist ← row_distance b sample i
    nn ← round a k nn i dist
    samples_loop a b sample k n (i + 1) nn

  -- `getNN`; `blank` is what `trim` would add to a shorter list
  unfoldable pub get_nn :
      Algorithms D → IndexVal D → BruteForce D → List D → ℕ → Run (IndexVector D)
  get_nn a blank b sample k = do
    nn ← samples_loop a b sample k b.nsamples 0 IndexVector.create
    ok (if ltb (k % 2 ^ 32) (IndexVector.size nn) then IndexVector.trim blank nn k else nn)
