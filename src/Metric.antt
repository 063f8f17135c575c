-- ===== src/Metric.antt =====
-- `Metric::get_raw_accuracy` of src/common/Metric.hpp on index vectors: the share of the exact
-- neighbours that the approximate ones hold. Lists has the overload on `NNVector`s.
pub mod Accuracy
pub mod Lists
pub mod Tests
use monya.Prelude.{
  ℕ, zero, suc, ◌+◌, Bool, List, [], ◌∷◌, Run, ok, assertion, ◌>>=◌, ◌>>◌, require, Scalar, ◌==◌,
  if◌then◌else◌,
}
use monya.IndexVector
use monya.IndexVector.{IndexVector, Algorithms}

module _ {D : Type 0} where
  -- The loop, for `n` positions from `i` on. `find` may sort `approx`; `match_count` counts the bits
  -- that are set, fewer than 2 ^ 31.
  unfoldable pub count_matches :
      Algorithms D → IndexVector D → IndexVector D → ℕ → ℕ → ℕ → Run (IndexVector D × ℕ)
  count_matches a approx exact zero i match_count = ok (approx, match_count)
  count_matches a approx exact (suc n) i match_count = do
    iv ← IndexVector.get exact i
    let (approx, found) = IndexVector.find a approx iv
    count_matches a approx exact n (i + 1) (if found then match_count + 1 else match_count)

  -- `ratio` is the division of two sizes as `data_t`.
  unfoldable pub get_raw_accuracy :
      Scalar D
      → Algorithms D
      → (ℕ → ℕ → D)
      → IndexVector D
      → IndexVector D
      → Run (IndexVector D × D)
  get_raw_accuracy s a ratio approx exact = do
    let size = IndexVector.size approx
    require (size == IndexVector.size exact) assertion
    (approx, match_count) ← count_matches a approx exact size 0 0
    ok (approx, if match_count == 0 then s.zero_value else ratio match_count size)
