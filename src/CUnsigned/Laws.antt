-- ===== src/CUnsigned/Laws.antt =====
-- The counter stays below its maximum and counts modulo it.
use monya.Prelude.{
  ℕ, zero, suc, ◌+◌, ◌-◌, ◌%◌, ◌^◌, ◌<◌, ◌≤◌, ◌≡◌, refl, ap, sym, Bool-cases, inl, inr, throw,
  parameter_exception, ◌==◌, if◌then◌else◌, Returns, arith,
}
use native.Mathlib.Nat.{add-zero, mod-add-mod, mod-eq_of_lt, mod_self}
use monya.CUnsigned.{CUnsigned, create_at, inc, dec}

-- what the constructors establish: a value below a maximum that an `unsigned` can hold
pub record IsCounter (c : CUnsigned) : Type 0 where
  pub below : c.val < c.max
  pub word : c.max < 2 ^ 32

pub create_at-IsCounter :
    (val max : ℕ) → max < 2 ^ 32 → val < max → Returns IsCounter (create_at val max)
unfolding create_at
create_at-IsCounter val max w h = ground arith

pub create_at_refused : (val max : ℕ) → max ≤ val → create_at val max ≡ throw parameter_exception
unfolding create_at
create_at_refused val max h = ground arith

pub inc-IsCounter : (c : CUnsigned) → IsCounter c → IsCounter (inc c)
unfolding inc
inc-IsCounter c v = ground arith

pub dec-IsCounter : (c : CUnsigned) → IsCounter c → IsCounter (dec c)
unfolding dec
dec-IsCounter c v = ground arith

-- `dec` undoes `inc`, at the wrap too.
pub dec-inc : (c : CUnsigned) → IsCounter c → (dec (inc c) ≡ c) × (inc (dec c) ≡ c)
unfolding dec inc
dec-inc c v = (ground arith, ground arith)

pub inc_times : ℕ → CUnsigned → CUnsigned
inc_times zero c = c
inc_times (suc n) c = inc_times n (inc c)

next_val :
    (val max : ℕ)
    → val < max
    → max < 2 ^ 32
    → (if val == (max + 2 ^ 32 - 1) % 2 ^ 32 then 0 else (val + 1) % 2 ^ 32) ≡ (val + 1) % max
next_val val max h w = elim (Bool-cases ((val + 1) == max)) [
  | inl last ↦
      let e : val + 1 ≡ max = ground arith in
      let m : (val + 1) % max ≡ 0 = rw e (mod_self max) in rw m (ground arith)
  | inr more ↦
      let m : (val + 1) % max ≡ val + 1 = mod-eq_of_lt (ground arith) in rw m (ground arith)
]

inc-mod : (c : CUnsigned) → IsCounter c → (inc c).val ≡ (c.val + 1) % c.max
unfolding inc
inc-mod c v = next_val c.val c.max v.below v.word

pub inc-max : (c : CUnsigned) → (inc c).max ≡ c.max
unfolding inc
inc-max c = refl

-- From any value, `n` calls of `inc` reach `(val + n) % max`: the trees of a forest take the split
-- dimensions in turn.
pub inc_times-mod :
    (n : ℕ) (c : CUnsigned) → IsCounter c → (inc_times n c).val ≡ (c.val + n) % c.max
unfolding inc_times
inc_times-mod zero c v = sym (rw add-zero (mod-eq_of_lt v.below))
inc_times-mod (suc n) c v =
    rw (inc_times-mod n (inc c) (inc-IsCounter c v), inc-mod c v, inc-max c, mod-add-mod)
      (ap (λ k. k % c.max) (omega arith))
