-- ===== src/Metric/Lists.antt =====
-- `Metric::get_raw_accuracy` of src/common/Metric.hpp on `NNVector`s: the loop with its reads through
-- the cache and its calls of `find`, which runs on fuel.
use monya.Prelude.{
  ℕ, zero, suc, ◌+◌, ◌<◌, ◌^◌, ◌≡◌, refl, sym, ap, subst, ◌∙◌, Bool, true, false, ◌&&◌, List, [],
  ◌∷◌, arith, ◌==◌, ltb, if◌then◌else◌, Bool-cases, inl, inr, length, drop, Run, ok, throw, fault,
  out_of_fuel, assertion, require, ◌>>=◌, ◌>>◌, Returns, Returns-mono, Scalar,
}
use monya.IndexVector.{IndexVal, val_eq}
use monya.NnVector.{NnVector}
use monya.NnVector.Reads.{at, find}
use monya.NnVector.Refinement.{Represents}
use monya.NnVector.Access.{at-get_elem?}
use monya.NnVector.Walks.{find_first_only, drop-some, drop_all, size-length}

module _ {D : Type 0} (s : Scalar D) where
  -- the loop, for `n` positions from `i` on: each read of `exact` moves its cache
  unfoldable pub count_matches : ℕ → NnVector D → NnVector D → ℕ → ℕ → ℕ → Run (NnVector D × ℕ)
  count_matches fuel approx exact zero i match_count = ok (exact, match_count)
  count_matches fuel approx exact (suc n) i match_count = do
    (exact, iv) ← at exact i
    found ← find s fuel approx iv
    count_matches fuel approx exact n (i + 1) (if found then match_count + 1 else match_count)

  -- the sum of the bits in `std::accumulate`, an `int`, which must not overflow
  abbrev pub as_int : ℕ → Run ℕ
  as_int n = if ltb n (2 ^ 31) then ok n else fault

  -- `ratio` is the division of two sizes as `data_t`.
  unfoldable pub get_raw_accuracy : (ℕ → ℕ → D) → ℕ → NnVector D → NnVector D → Run (NnVector D × D)
  get_raw_accuracy ratio fuel approx exact = do
    require (approx.size == exact.size) assertion
    (exact, match_count) ← count_matches fuel approx exact approx.size 0 0
    match_count ← as_int match_count
    ok (exact, if match_count == 0 then s.zero_value else ratio match_count approx.size)

  -- whether all items have the value of `x`
  abbrev pub all_equal : IndexVal D → List (IndexVal D) → Bool
  all_equal x [] = true
  all_equal x (y ∷ m) = val_eq s x y && all_equal x m

-- a call that returns where `b` holds, and never ends where it does not
abbrev pub Ends : {A : Type 0} → Bool → (A → Type 0) → Run A → Type 0
Ends true P r = Returns P r
Ends false P r = r ≡ out_of_fuel

bind-Ends :
    {A B : Type 0} (b : Bool) (P : A → Type 0) (Q : B → Type 0) (r : Run A) (k : A → Run B)
    → Returns P r
    → ((a : A) → P a → Ends b Q (k a))
    → Ends b Q (r >>= k)
bind-Ends b P Q (ok a) k h next = next a h
bind-Ends b P Q (throw e) k h next = absurd h
bind-Ends b P Q fault k h next = absurd h
bind-Ends b P Q out_of_fuel k h next = absurd h

Ends-mono :
    {A : Type 0} (b : Bool) (P Q : A → Type 0) (r : Run A)
    → Ends b P r
    → ((a : A) → P a → Q a)
    → Ends b Q r
Ends-mono true P Q r h weaken = Returns-mono Q r h weaken
Ends-mono false P Q r h weaken = h

Ends-bind :
    {A B : Type 0} (b : Bool) (P : A → Type 0) (Q : B → Type 0) (r : Run A) (k : A → Run B)
    → Ends b P r
    → ((a : A) → P a → Returns Q (k a))
    → Ends b Q (r >>= k)
Ends-bind true P Q r k h next = bind-Ends true P Q r k h next
Ends-bind false P Q r k h next = ap (λ z. z >>= k) h

module _ {D : Type 0} (s : Scalar D) where
  count_matches-Ends :
      (fuel n i c : ℕ) (v w : NnVector D) (x : IndexVal D) (l m : List (IndexVal D))
      → Represents v (x ∷ l)
      → Represents w m
      → length m < 2 ^ 64
      → i + n ≡ length m
      → Ends
          (all_equal s x (drop i m))
          (λ (u, k). Represents u m × (k ≡ c + n))
          (count_matches s (suc fuel) v w n i c)
  unfolding count_matches
  count_matches-Ends fuel zero i c v w x l m rv rw' small e =
      rw (drop_all s m i (omega arith)) (rw', omega arith)
  count_matches-Ends fuel (suc n) i c v w x l m rv rw' small e =
      bind-Ends (all_equal s x (drop i m)) _ _ (at w i) _
        (at-get_elem? w m i rw' small (omega arith))
        λ (w', a) (ra, ea).
          rw (drop-some s m i a ea, find_first_only s fuel v a x l rv)
            (elim (Bool-cases (val_eq s x a)) [
              | inl same ↦
                  let next : i + 1 ≡ suc i = omega arith in
                  rw same (
                    Ends-mono (all_equal s x (drop (suc i) m)) _ _ _
                      (subst
                        (λ j.
                          Ends (all_equal s x (drop j m))
                            (λ (u, k). Represents u m × (k ≡ c + 1 + n))
                            (count_matches s (suc fuel) v w' n (i + 1) (c + 1)))
                        next
                        (count_matches-Ends fuel n (i + 1) (c + 1) v w' x l m rv ra small
                          (omega arith)))
                      λ (u, k) (ru, f). (ru, omega (arith, f)))
              | inr differ ↦ rw differ refl
            ])

  -- Of two vectors that hold lists of one length below 2 ^ 31, the first not empty, get_raw_accuracy
  -- returns where every exact value is that of the first approximate neighbour: the ratio of the length
  -- to itself. In every other case it uses up any fuel above zero.
  pub get_raw_accuracy-Ends :
      (ratio : ℕ → ℕ → D) (fuel : ℕ) (v w : NnVector D) (x : IndexVal D) (l m : List (IndexVal D))
      → Represents v (x ∷ l)
      → Represents w m
      → length m ≡ length (x ∷ l)
      → length m < 2 ^ 31
      → Ends
          (all_equal s x m)
          (λ (u, r). Represents u m × (r ≡ ratio (length m) (length m)))
          (get_raw_accuracy s ratio (suc fuel) v w)
  unfolding get_raw_accuracy
  get_raw_accuracy-Ends ratio fuel v w x l m rv rm len small =
      let lv : v.size ≡ length m = size-length s v (x ∷ l) rv ∙ sym len in
      let same : (v.size == w.size) ≡ true = ground (arith, lv, size-length s w m rm) in
      rw same (
        Ends-bind (all_equal s x m) _ _ (count_matches s (suc fuel) v w v.size 0 0) _
          (count_matches-Ends fuel v.size 0 0 v w x l m rv rm (omega arith) (omega (arith, lv)))
          λ (u, k) (ru, e).
            let all : k ≡ length m = omega (arith, e, lv) in
            let some_item : (length m == 0) ≡ false = ground (arith, len) in
            let fits : ltb k (2 ^ 31) ≡ true = ground (arith, all, small) in
            rw (fits, all, some_item, lv) (ru, refl))
