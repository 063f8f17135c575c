-- ===== src/Prelude/Members.antt =====
-- Whether a list of numbers holds one, as a test.
use Prim.Native.Nat.{ℕ, zero, suc}
use mathlib.Core.Path.{◌≡◌, refl, ap, ◌∙◌}
use mathlib.Core.Bool.{Bool, true, false, ◌||◌}
use mathlib.Core.List.{List, [], ◌∷◌, ◌++◌, Perm, Permᴰ}
use mathlib.Core.Logic.{∥∥₁_elim, ◌⊎◌, inl, inr}
use native.Mathlib.Omega.{arith}
use monya.Prelude.Tests.{◌==◌, Bool-cases, ==_iff}
use monya.Prelude.Lists.{length, take, drop}
use native.Mathlib.Nat.{ℕ_set}

abbrev pub mem : ℕ → List ℕ → Bool
mem a [] = false
mem a (x ∷ xs) = (a == x) || mem a xs

pub mem-append : (a : ℕ) (xs ys : List ℕ) → mem a (xs ++ ys) ≡ (mem a xs || mem a ys)
mem-append a [] ys = refl
mem-append a (x ∷ xs) ys = ground (arith, mem-append a xs ys)

mem-permᴰ : (a : ℕ) {xs ys : List ℕ} → Permᴰ xs ys → mem a xs ≡ mem a ys
mem-permᴰ a Permᴰ.nil = refl
mem-permᴰ a (Permᴰ.cons e p) = rw (e, mem-permᴰ a p) refl
mem-permᴰ a (Permᴰ.swap e f) = rw (e, f) (ground arith)
mem-permᴰ a (Permᴰ.trans p q) = mem-permᴰ a p ∙ mem-permᴰ a q

pub mem-perm : (a : ℕ) (xs ys : List ℕ) → Perm xs ys → mem a xs ≡ mem a ys
mem-perm a xs ys p = ∥∥₁_elim p (hlevel) (λ d. mem-permᴰ a d)

pub mem-append_left : (a : ℕ) (xs ys : List ℕ) → mem a xs ≡ true → mem a (xs ++ ys) ≡ true
mem-append_left a xs ys e = ground (arith, mem-append a xs ys)

pub mem-append_right : (a : ℕ) (xs ys : List ℕ) → mem a ys ≡ true → mem a (xs ++ ys) ≡ true
mem-append_right a xs ys e = ground (arith, mem-append a xs ys)

pub mem-append_cases :
    (a : ℕ) (xs ys : List ℕ) → mem a (xs ++ ys) ≡ true → (mem a xs ≡ true) ⊎ (mem a ys ≡ true)
mem-append_cases a xs ys e = elim (Bool-cases (mem a xs)) [
  | inl l ↦ inl l
  | inr n ↦ inr (ground (arith, mem-append a xs ys))
]

pub mem-append_middle : (a : ℕ) (xs ys : List ℕ) → mem a (xs ++ a ∷ ys) ≡ true
mem-append_middle a xs ys = mem-append_right a xs (a ∷ ys) (ground arith)

pub mem_ne : (a b : ℕ) (xs : List ℕ) → mem a xs ≡ false → mem b xs ≡ true → (a == b) ≡ false
mem_ne a b xs n e = elim (Bool-cases (a == b)) [
  | inl same ↦ cc (n, e, ap (λ z. mem z xs) ((==_iff a b).0 same))
  | inr other ↦ other
]

pub mem-take : (a n : ℕ) (xs : List ℕ) → mem a (take n xs) ≡ true → mem a xs ≡ true
mem-take a zero xs e = cc
mem-take a (suc n) [] e = e
mem-take a (suc n) (x ∷ xs) e = ground (arith, mem-take a n xs)

pub mem-drop : (a n : ℕ) (xs : List ℕ) → mem a (drop n xs) ≡ true → mem a xs ≡ true
mem-drop a zero xs e = e
mem-drop a (suc n) [] e = e
mem-drop a (suc n) (x ∷ xs) e = ground (arith, mem-drop a n xs)

length-permᴰ {ℓ} : {A : Type ℓ} {xs ys : List A} → Permᴰ xs ys → length xs ≡ length ys
length-permᴰ Permᴰ.nil = refl
length-permᴰ (Permᴰ.cons e p) = ap suc (length-permᴰ p)
length-permᴰ (Permᴰ.swap e f) = refl
length-permᴰ (Permᴰ.trans p q) = length-permᴰ p ∙ length-permᴰ q

pub length-perm {ℓ} : {A : Type ℓ} (xs ys : List A) → Perm xs ys → length xs ≡ length ys
length-perm xs ys p = ∥∥₁_elim p (ℕ_set _ _) (λ d. length-permᴰ d)
