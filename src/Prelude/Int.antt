-- ===== src/Prelude/Int.antt =====
-- Signed integers over the native numbers: Python's `int`, with `&` by a nonnegative mask.
use Prim.Native.Nat.{bit_and}
use ethercat_device_simulato.Prelude.Tests.{leb, ltb, ◌==◌}
use Prim.Native.Nat.{ℕ, suc, ◌+◌, ◌-◌}
use mathlib.Core.Bool.{Bool}

-- `negsuc n` is -(n + 1).
pub data ℤ : Type 0 where
  pos : ℕ → ℤ
  negsuc : ℕ → ℤ

abbrev pub pos_part : ℤ → ℕ
pos_part (pos n) = n
pos_part (negsuc n) = 0

abbrev pub neg_part : ℤ → ℕ
neg_part (pos n) = 0
neg_part (negsuc n) = suc n

abbrev pub ltb_ℤ : ℤ → ℤ → Bool
ltb_ℤ a b = ltb (pos_part a + neg_part b) (pos_part b + neg_part a)

abbrev pub leb_ℤ : ℤ → ℤ → Bool
leb_ℤ a b = leb (pos_part a + neg_part b) (pos_part b + neg_part a)

abbrev pub eqb_ℤ : ℤ → ℤ → Bool
eqb_ℤ a b = (pos_part a + neg_part b) == (pos_part b + neg_part a)

-- `a & mask`: the complement of `n` under the mask for -(n + 1).
abbrev pub and_ℤ : ℤ → ℕ → ℕ
and_ℤ (pos n) mask = bit_and n mask
and_ℤ (negsuc n) mask = mask - bit_and n mask
