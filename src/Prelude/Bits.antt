-- ===== src/Prelude/Bits.antt =====
-- Bit masks and little-endian bytes: `x & m != 0`, `x & ~m`, `int.from_bytes` and `int.to_bytes`.
use Prim.Native.Nat.{ℕ, zero, suc, ◌+◌, ◌-◌, ◌*◌, ◌/◌, ◌%◌, ◌^◌, ◌<◌, bit_and}
use mathlib.Core.Path.{◌≡◌, refl, ap, ap₂, ◌∙◌}
use mathlib.Core.Bool.{Bool, true, false, not}
use mathlib.Core.List.{List, [], ◌∷◌}
use native.Mathlib.Omega.{arith}
use native.Mathlib.Nat.{pow-suc}
use ethercat_device_simulato.Prelude.Tests.{◌==◌, if◌then◌else◌}
use ethercat_device_simulato.Prelude.Lists.{length}

-- `bool(x & mask)`
abbrev pub has : ℕ → ℕ → Bool
has x mask = not (bit_and x mask == 0)

-- `x & ~mask`
abbrev pub and_not : ℕ → ℕ → ℕ
and_not x mask = x - bit_and x mask

-- `int.from_bytes(b, "little")`
unfoldable pub from_le : List ℕ → ℕ
from_le [] = 0
from_le (b ∷ bs) = b + 256 * from_le bs

-- `x.to_bytes(n, "little")` of a number below `256 ^ n`
unfoldable pub to_le : ℕ → ℕ → List ℕ
to_le zero x = []
to_le (suc n) x = (x % 256) ∷ to_le n (x / 256)

-- Every element is a byte.
abbrev pub AllBytes : List ℕ → Type 0
AllBytes [] = Unit
AllBytes (b ∷ bs) = (b < 256) × AllBytes bs

pub length-to_le : (n x : ℕ) → length (to_le n x) ≡ n
unfolding to_le
length-to_le zero x = refl
length-to_le (suc n) x = ap suc (length-to_le n (x / 256))

pub to_le-AllBytes : (n x : ℕ) → AllBytes (to_le n x)
unfolding to_le
to_le-AllBytes zero x = tt
to_le-AllBytes (suc n) x = (omega arith, to_le-AllBytes n (x / 256))

pub to_le-from_le : (bs : List ℕ) → AllBytes bs → to_le (length bs) (from_le bs) ≡ bs
unfolding to_le from_le
to_le-from_le [] h = refl
to_le-from_le (b ∷ bs) h =
    let low : (b + 256 * from_le bs) % 256 ≡ b = omega (arith, h.0) in
    let high : (b + 256 * from_le bs) / 256 ≡ from_le bs = omega (arith, h.0) in
    ap₂ ◌∷◌ low (ap (to_le (length bs)) high ∙ to_le-from_le bs h.1)

-- The test of a table: `p` of each number below `n`.
unfoldable pub table_holds : (ℕ → Bool) → ℕ → Bool
table_holds p zero = true
table_holds p (suc n) = if p n then table_holds p n else false

pub table_holds-lookup :
    (p : ℕ → Bool) {x : ℕ} (n : ℕ) → x < n → table_holds p n ≡ true → p x ≡ true
unfolding table_holds
table_holds-lookup p zero below h = absurd (omega arith)
table_holds-lookup p {x = x} (suc n) below h = ground (arith, table_holds-lookup p {x = x} n)

pub from_le-to_le : (n x : ℕ) → x < 256 ^ n → from_le (to_le n x) ≡ x
unfolding from_le to_le
from_le-to_le zero x h = omega arith
from_le-to_le (suc n) x h = omega (arith, from_le-to_le n (x / 256) (below_power n x h))
  where
    below_power : (n x : ℕ) → x < 256 ^ suc n → x / 256 < 256 ^ n
    below_power n x h = omega (arith, pow-suc 256 n)

pub from_le-lt : (bs : List ℕ) → AllBytes bs → from_le bs < 256 ^ length bs
unfolding from_le
from_le-lt [] h = omega arith
from_le-lt (b ∷ bs) h = omega (arith, pow-suc 256 (length bs), from_le-lt bs h.1, h.0)
