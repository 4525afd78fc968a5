-- ===== src/Base/Int.antt =====
-- Go's signed integers as the integers that they stand for.
use Prim.Native.Nat.{ℕ, ◌-◌, ◌^◌, ◌%◌, ◌<◌}
use mathlib.Core.Path.{◌≡◌}
use native.Mathlib.Omega.{arith}
use mathlib.Core.Bool.{Bool, true, false}
use terraform_provider_tunne.Base.Tests.{ltb, ◌==◌, if◌then◌else◌}

-- `negsuc n` is -(n + 1).
pub data ℤ : Type 0 where
  pos : ℕ → ℤ
  negsuc : ℕ → ℤ

abbrev pub ltℤ : ℤ → ℤ → Bool
ltℤ (pos a) (pos b) = ltb a b
ltℤ (pos a) (negsuc b) = false
ltℤ (negsuc a) (pos b) = true
ltℤ (negsuc a) (negsuc b) = ltb b a

abbrev pub eqℤ : ℤ → ℤ → Bool
eqℤ (pos a) (pos b) = a == b
eqℤ (pos a) (negsuc b) = false
eqℤ (negsuc a) (pos b) = false
eqℤ (negsuc a) (negsuc b) = a == b

-- The signed value of a 32-bit pattern.
abbrev pub signed32 : ℕ → ℤ
signed32 p = if ltb p (2 ^ 31) then pos p else negsuc (2 ^ 32 - 1 - p)

-- `int32(z)`: the low 32 bits of the two's complement of `z`.
abbrev pub to_int32 : ℤ → ℤ
to_int32 (pos n) = signed32 (n % 2 ^ 32)
to_int32 (negsuc n) = signed32 (2 ^ 32 - 1 - n % 2 ^ 32)

-- A number below 2^31 keeps its value.
pub to_int32-pos : (n : ℕ) → n < 2 ^ 31 → to_int32 (pos n) ≡ pos n
to_int32-pos n h = ground arith
