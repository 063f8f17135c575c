-- ===== src/Scheduler/Threads/Count.antt =====
-- Families over the threads: an update at one thread, and sums.
use monya.Prelude.{
  ℕ, zero, suc, ◌+◌, ◌≤◌, ◌<◌, ◌≡◌, ◌≢◌, refl, subst, sym, Bool-cases, inl, inr, ◌==◌, update,
  arith,
}
use mathlib.Core.Path.{fun_ext}
use native.Mathlib.Decide.{dec_lt}

-- What holds of the new member and of the others holds of all.
pub update-all {ℓ} :
    {A : Type ℓ} (P : ℕ → A → Type 0) (f : ℕ → A) (i : ℕ) (a : A)
    → P i a
    → ((k : ℕ) → k ≢ i → P k (f k))
    → (k : ℕ) → P k (update f i a k)
update-all P f i a here others k = elim (Bool-cases (k == i)) [
  | inl same ↦ let e : k ≡ i = ground arith in rw same (subst (λ j. P j a) (sym e) here)
  | inr other ↦ rw other (others k (ground arith))
]

pub update-here {ℓ} : {A : Type ℓ} (f : ℕ → A) (i : ℕ) (a : A) → update f i a i ≡ a
update-here f i a = ground arith

pub update-other {ℓ} :
    {A : Type ℓ} (f : ℕ → A) (i : ℕ) (a : A) (k : ℕ) → k ≢ i → update f i a k ≡ f k
update-other f i a k other = ground arith

pub update-same : {A : Type 0} (f : ℕ → A) (i : ℕ) → update f i (f i) ≡ f
update-same f i = fun_ext (update-all (λ k a. a ≡ f k) f i (f i) refl (λ k other. refl))

unfoldable pub total : ℕ → (ℕ → ℕ) → ℕ
total zero f = 0
total (suc n) f = total n f + f n

pub total-same : (n : ℕ) (f g : ℕ → ℕ) → ((k : ℕ) → k < n → f k ≡ g k) → total n f ≡ total n g
unfolding total
total-same zero f g same = refl
total-same (suc n) f g same =
    omega (arith, same n (omega arith), total-same n f g (λ k lt. same k (omega arith)))

-- Two families that differ at most at one thread.
pub total-change :
    (n : ℕ) (f g : ℕ → ℕ) (i : ℕ)
    → ((k : ℕ) → k ≢ i → f k ≡ g k)
    → i < n
    → total n g + f i ≡ total n f + g i
unfolding total
total-change zero f g i same h = absurd (omega arith)
total-change (suc n) f g i same h = elim (dec_lt i n) [
  | yes below ↦ omega (arith, total-change n f g i same below, same n (omega arith))
  | no last ↦
      let before = total-same n f g (λ k lt. same k (omega arith)) in
      let here : i ≡ n = omega arith in rw here (omega (arith, before))
]

-- A sum that is 0 has no other term.
pub total-zero : (n : ℕ) (f : ℕ → ℕ) → total n f ≡ 0 → (i : ℕ) → i < n → f i ≡ 0
unfolding total
total-zero zero f h i lt = absurd (omega arith)
total-zero (suc n) f h i lt = elim (dec_lt i n) [
  | yes below ↦ total-zero n f (omega arith) i below
  | no last ↦ let here : i ≡ n = omega arith in rw here (omega arith)
]

pub total-le : (n : ℕ) (f : ℕ → ℕ) → ((i : ℕ) → f i ≤ 1) → total n f ≤ n
unfolding total
total-le zero f small = omega arith
total-le (suc n) f small = omega (arith, small n, total-le n f small)

pub total-term : (n : ℕ) (f : ℕ → ℕ) (i : ℕ) → i < n → f i ≤ total n f
unfolding total
total-term zero f i lt = absurd (omega arith)
total-term (suc n) f i lt = elim (dec_lt i n) [
  | yes below ↦ omega (arith, total-term n f i below)
  | no last ↦ let here : i ≡ n = omega arith in rw here (omega arith)
]

pub total-lt : (n : ℕ) (f : ℕ → ℕ) → ((i : ℕ) → f i ≤ 1) → (i : ℕ) → i < n → f i ≡ 0 → total n f < n
unfolding total
total-lt zero f small i lt none = absurd (omega arith)
total-lt (suc n) f small i lt none = elim (dec_lt i n) [
  | yes below ↦ omega (arith, small n, total-lt n f small i below none)
  | no last ↦
      let here : f n ≡ 0 = subst (λ j. f j ≡ 0) (omega arith) none in
      omega (arith, total-le n f small)
]

pub total-ones : (n : ℕ) → total n (λ _. 1) ≡ n
unfolding total
total-ones zero = refl
total-ones (suc n) = omega (arith, total-ones n)

pub total-zeros : (n : ℕ) (f : ℕ → ℕ) → ((i : ℕ) → i < n → f i ≡ 0) → total n f ≡ 0
unfolding total
total-zeros zero f none = refl
total-zeros (suc n) f none =
    omega (arith, none n (omega arith), total-zeros n f (λ i lt. none i (omega arith)))

-- A sum that is not 0 has a term that is not.
pub total-some : (n : ℕ) (f : ℕ → ℕ) → total n f ≢ 0 → (i : ℕ) × (i < n) × (f i ≢ 0)
unfolding total
total-some zero f h = absurd (h refl)
total-some (suc n) f h = elim (Bool-cases (f n == 0)) [
  | inl none ↦ let (i, lt, some) = total-some n f (ground arith) in (i, omega arith, some)
  | inr some ↦ (n, omega arith, ground arith)
]
