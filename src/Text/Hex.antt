-- ===== src/Text/Hex.antt =====
-- `bytes.hex` and `bytes.fromhex`.
use ethercat_device_simulato.Prelude.{
  ℕ, ◌*◌, ◌/◌, ◌%◌, ◌<◌, ◌≡◌, refl, arith, List, [], ◌∷◌, AllBytes, length, false,
}
use ethercat_device_simulato.Exec.{ok}
use ethercat_device_simulato.Text.{to_hex, from_hex, from_hex_at, hex_digit, hex_value, is_space}

hex_value-hex_digit : (v : ℕ) → v < 16 → hex_value (hex_digit v) ≡ v
unfolding hex_value hex_digit
hex_value-hex_digit v h = ground arith

is_space-hex_digit : (v : ℕ) → is_space (hex_digit v) ≡ false
unfolding is_space hex_digit
is_space-hex_digit v = ground arith

pub length-to_hex : (bs : List ℕ) → length (to_hex bs) ≡ length bs * 2
unfolding to_hex
length-to_hex [] = omega arith
length-to_hex (b ∷ bs) = omega (arith, length-to_hex bs)

pub from_hex-to_hex : (bs : List ℕ) → AllBytes bs → from_hex (to_hex bs) ≡ ok bs
unfolding from_hex from_hex_at to_hex
from_hex-to_hex [] h = refl
from_hex-to_hex (b ∷ bs) h =
    rw
      (
        is_space-hex_digit (b / 16),
        hex_value-hex_digit (b / 16) (omega (arith, h.0)),
        hex_value-hex_digit (b % 16) (omega arith),
        from_hex-to_hex bs h.1,
      )
      (ground (arith, h.0))
