-- ===== src/Prelude/Int.antt =====
-- Python's integers; `negsuc n` is -(n + 1).
use Prim.Native.Nat.{ℕ, ◌-◌}
use mathlib.Core.Bool.{Bool, true, false}
use x402_conformance.Prelude.Tests.{nat_beq, leb, if◌then◌else◌}

pub data ℤ : Type 0 where
  pos : ℕ → ℤ
  negsuc : ℕ → ℤ

-- `z == n` for a literal n
abbrev pub is_nat : ℤ → ℕ → Bool
is_nat (pos m) n = nat_beq m n
is_nat (negsuc m) n = false

-- `z <= 0`
abbrev pub is_nonpositive : ℤ → Bool
is_nonpositive (pos m) = nat_beq m 0
is_nonpositive (negsuc m) = true

-- a - b, as an integer
abbrev pub sub_ℕ : ℕ → ℕ → ℤ
sub_ℕ a b = if leb b a then pos (a - b) else negsuc (b - a - 1)

-- max(0, z)
abbrev pub non_negative : ℤ → ℕ
non_negative (pos n) = n
non_negative (negsuc n) = 0
