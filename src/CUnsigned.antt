-- ===== src/CUnsigned.antt =====
-- `cunsigned` of src/common/types.hpp: an unsigned counter that runs round below an exclusive
-- maximum. Values are `unsigned`, so `+ 1` and `- 1` are written modulo 2 ^ 32.
pub mod Laws
pub mod Tests
use monya.Prelude.{
  ℕ, ◌+◌, ◌-◌, ◌%◌, ◌^◌, Run, ok, throw, parameter_exception, ◌>>◌, require, not, ltb, ◌==◌,
  if◌then◌else◌,
}

pub record CUnsigned : Type 0 where
  pub val : ℕ
  pub max : ℕ

-- `cunsigned(unsigned max)`
unfoldable pub create : ℕ → Run CUnsigned
create max = do require (not (max == 0)) parameter_exception; ok (record { val = 0; max = max })

-- `cunsigned(unsigned val, unsigned max)`
pub create_at : ℕ → ℕ → Run CUnsigned
create_at val max = do
  require (not (max == 0)) parameter_exception
  require (ltb val max) parameter_exception
  ok (record { val = val; max = max })

-- `set` writes the member before it tests the value, so the state is returned beside the outcome.
pub set : ℕ → CUnsigned → CUnsigned × Run (Unit {0})
set val c = (record c { val = val }, require (ltb val c.max) parameter_exception)

-- `inc`, with the state after the call: its `val` is the value returned
pub inc : CUnsigned → CUnsigned
inc c = record c {
  val = if c.val == (c.max + 2 ^ 32 - 1) % 2 ^ 32 then 0 else (c.val + 1) % 2 ^ 32;
}

pub dec : CUnsigned → CUnsigned
dec c = record c {
  val = if c.val == 0 then (c.max + 2 ^ 32 - 1) % 2 ^ 32 else (c.val + 2 ^ 32 - 1) % 2 ^ 32;
}

unfoldable pub get : CUnsigned → ℕ
get c = c.val
