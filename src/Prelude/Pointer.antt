-- ===== src/Prelude/Pointer.antt =====
-- Addresses: numbers, 0 for NULL. A member of the objects of a class is a map from their addresses.
use Prim.Native.Nat.{ℕ}
use monya.Prelude.Tests.{◌==◌, if◌then◌else◌}

abbrev pub Ptr : Type 0
Ptr = ℕ

abbrev pub null : Ptr
null = 0

abbrev pub update {ℓ} : {A : Type ℓ} → (Ptr → A) → Ptr → A → Ptr → A
update f p v q = if q == p then v else f q
