-- ===== src/Prelude/Masks.antt =====
-- `x & mask` for the masks of the program, as sums of binary digits, at every `x`.
use Prim.Native.Nat.{ℕ, zero, suc, ◌+◌, ◌*◌, ◌/◌, ◌%◌, ◌≤◌, min, bit_and, digits, bit_and-bitwise}
use mathlib.Core.Path.{◌≡◌, refl}
use native.Mathlib.Omega.{arith}

-- Any count of digits that covers the first number gives the same result.
count_irrelevant :
    (a b n m : ℕ) → a ≤ n → a ≤ m → digits (λ _. zero) min n a b ≡ digits (λ _. zero) min m a b
count_irrelevant zero b zero zero hn hm = refl
count_irrelevant zero b zero (suc m) hn hm = refl
count_irrelevant zero b (suc n) zero hn hm = refl
count_irrelevant zero b (suc n) (suc m) hn hm = refl
count_irrelevant (suc a) b zero m hn hm = absurd (omega arith)
count_irrelevant (suc a) b (suc n) zero hn hm = absurd (omega arith)
count_irrelevant (suc a) b (suc n) (suc m) hn hm =
    omega (arith, count_irrelevant (suc a / 2) (b / 2) n m (omega arith) (omega arith))

zero-bit_and : (b : ℕ) → bit_and 0 b ≡ 0
zero-bit_and b = bit_and-bitwise 0 b

-- One digit, and the rest.
pub bit_and-digit : (a b : ℕ) → bit_and a b ≡ bit_and (a / 2) (b / 2) * 2 + min (a % 2) (b % 2)
bit_and-digit zero b = omega (arith, zero-bit_and b, zero-bit_and (b / 2))
bit_and-digit (suc a) b =
    let half : suc a / 2 ≤ a = omega arith in
    omega (
      arith,
      bit_and-bitwise (suc a) b,
      bit_and-bitwise (suc a / 2) (b / 2),
      count_irrelevant (suc a / 2) (b / 2) a (suc a / 2) half (omega arith),
    )

zero_mask_within : (n a : ℕ) → a ≤ n → bit_and a 0 ≡ 0
zero_mask_within n zero h = zero-bit_and 0
zero_mask_within zero (suc a) h = absurd (omega arith)
zero_mask_within (suc n) (suc a) h =
    omega (arith, bit_and-digit (suc a) 0, zero_mask_within n (suc a / 2) (omega arith))

pub bit_and-zero : (a : ℕ) → bit_and a 0 ≡ 0
bit_and-zero a = zero_mask_within a a (omega arith)

mask_0x01 : (x : ℕ) → bit_and x 0x01 ≡ x % 2
mask_0x01 x = omega (arith, bit_and-digit x 1, bit_and-zero (x / 2))

mask_0x02 : (x : ℕ) → bit_and x 0x02 ≡ x / 2 % 2 * 2
mask_0x02 x = omega (arith, bit_and-digit x 2, mask_0x01 (x / 2))

mask_0x04 : (x : ℕ) → bit_and x 0x04 ≡ x / 4 % 2 * 4
mask_0x04 x = omega (arith, bit_and-digit x 4, mask_0x02 (x / 2))

pub mask_0x08 : (x : ℕ) → bit_and x 0x08 ≡ x / 8 % 2 * 8
mask_0x08 x = omega (arith, bit_and-digit x 8, mask_0x04 (x / 2))

pub mask_0x10 : (x : ℕ) → bit_and x 0x10 ≡ x / 16 % 2 * 16
mask_0x10 x = omega (arith, bit_and-digit x 16, mask_0x08 (x / 2))

mask_0x20 : (x : ℕ) → bit_and x 0x20 ≡ x / 32 % 2 * 32
mask_0x20 x = omega (arith, bit_and-digit x 32, mask_0x10 (x / 2))

mask_0x40 : (x : ℕ) → bit_and x 0x40 ≡ x / 64 % 2 * 64
mask_0x40 x = omega (arith, bit_and-digit x 64, mask_0x20 (x / 2))

pub mask_0x80 : (x : ℕ) → bit_and x 0x80 ≡ x / 128 % 2 * 128
mask_0x80 x = omega (arith, bit_and-digit x 128, mask_0x40 (x / 2))

mask_0x21 : (x : ℕ) → bit_and x 0x21 ≡ x / 32 % 2 * 32 + x % 2
mask_0x21 x = omega (arith, bit_and-digit x 33, mask_0x10 (x / 2))

mask_0x43 : (x : ℕ) → bit_and x 0x43 ≡ x / 64 % 2 * 64 + x % 4
mask_0x43 x = omega (arith, bit_and-digit x 67, mask_0x21 (x / 2))

-- Bits 7, 2, 1 and 0.
pub mask_0x87 : (x : ℕ) → bit_and x 0x87 ≡ x / 128 % 2 * 128 + x % 8
mask_0x87 x = omega (arith, bit_and-digit x 135, mask_0x43 (x / 2))

mask_0x11 : (x : ℕ) → bit_and x 0x11 ≡ x / 16 % 2 * 16 + x % 2
mask_0x11 x = omega (arith, bit_and-digit x 17, mask_0x08 (x / 2))

mask_0x23 : (x : ℕ) → bit_and x 0x23 ≡ x / 32 % 2 * 32 + x % 4
mask_0x23 x = omega (arith, bit_and-digit x 35, mask_0x11 (x / 2))

mask_0x47 : (x : ℕ) → bit_and x 0x47 ≡ x / 64 % 2 * 64 + x % 8
mask_0x47 x = omega (arith, bit_and-digit x 71, mask_0x23 (x / 2))

-- Bits 7, 3, 2, 1 and 0.
pub mask_0x8f : (x : ℕ) → bit_and x 0x8f ≡ x / 128 % 2 * 128 + x % 16
mask_0x8f x = omega (arith, bit_and-digit x 143, mask_0x47 (x / 2))
