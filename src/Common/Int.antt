-- ===== src/Common/Int.antt =====
-- Python's integers, where the source subtracts: what is below zero is kept.
use Prim.Native.Nat.{ℕ, ◌+◌, ◌-◌}
use mathlib.Core.Bool.{Bool, true, false}
use x402_hosted_facilitator.Common.Tests.{if◌then◌else◌, leb, ltb}

pub data ℤ : Type 0 where
  pos : ℕ → ℤ
  -- -(n + 1)
  negsuc : ℕ → ℤ

-- a - b
abbrev pub minus : ℕ → ℕ → ℤ
minus a b = if leb b a then ℤ.pos (a - b) else ℤ.negsuc ((b - a) - 1)

abbrev pub int_ltb : ℤ → ℤ → Bool
int_ltb (ℤ.pos a) (ℤ.pos b) = ltb a b
int_ltb (ℤ.pos a) (ℤ.negsuc b) = false
int_ltb (ℤ.negsuc a) (ℤ.pos b) = true
int_ltb (ℤ.negsuc a) (ℤ.negsuc b) = ltb b a

-- i + n
abbrev pub plus : ℤ → ℕ → ℤ
plus (ℤ.pos a) n = ℤ.pos (a + n)
plus (ℤ.negsuc a) n = minus n (a + 1)

-- i - n
abbrev pub take_away : ℤ → ℕ → ℤ
take_away (ℤ.pos a) n = minus a n
take_away (ℤ.negsuc a) n = ℤ.negsuc (a + n)
