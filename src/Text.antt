-- ===== src/Text.antt =====
-- Texts as lists of character codes, with what the program uses of Python's `str`: hexadecimal bytes
-- (`bytes.hex`, `bytes.fromhex`), white space, lower case and decimal numbers. Only the ASCII white
-- space and letters are told apart.
pub mod Hex
use Prim.Native.Char.{code}
use Prim.Native.String.{String}
use ethercat_device_simulato.Prelude.{
  ℕ, ◌+◌, ◌-◌, ◌*◌, ◌/◌, ◌%◌, Bool, true, false, ◌&&◌, ◌||◌, not, Option, none, some, List, [], ◌∷◌,
  map, if◌then◌else◌, ltb, leb, ◌==◌,
}
use ethercat_device_simulato.Exec.{Result, ok, err, value_error, then_do}

abbrev pub Text : Type 0
Text = List ℕ

-- The codes of a literal
abbrev pub codes : String → Text
codes String.[] = []
codes (String.◌∷◌ c s) = code c ∷ codes s

unfoldable pub text_eq : Text → Text → Bool
text_eq [] [] = true
text_eq (a ∷ as') (b ∷ bs) = a == b && text_eq as' bs
text_eq _ _ = false

unfoldable pub is_space : ℕ → Bool
is_space c = (leb 9 c && leb c 13) || c == 32

unfoldable pub is_digit : ℕ → Bool
is_digit c = leb 48 c && leb c 57

unfoldable pub is_upper : ℕ → Bool
is_upper c = leb 65 c && leb c 90

unfoldable pub is_lower : ℕ → Bool
is_lower c = leb 97 c && leb c 122

-- `c.lower()`
unfoldable pub lower_code : ℕ → ℕ
unfolding is_upper
lower_code c = if is_upper c then c + 32 else c

unfoldable pub lower : Text → Text
unfolding lower_code
lower s = map lower_code s

-- `s.lstrip()`
unfoldable pub lstrip : Text → Text
unfolding is_space
lstrip [] = []
lstrip (c ∷ s) = if is_space c then lstrip s else c ∷ s

rstrip_cons : ℕ → Text → Text
unfolding is_space
rstrip_cons c [] = if is_space c then [] else c ∷ []
rstrip_cons c (d ∷ s) = c ∷ d ∷ s

-- `s.rstrip()`
unfoldable pub rstrip : Text → Text
unfolding rstrip_cons
rstrip [] = []
rstrip (c ∷ s) = rstrip_cons c (rstrip s)

-- `s.strip()`
unfoldable pub strip : Text → Text
strip s = rstrip (lstrip s)

-- The digit of a value below 16, in lower case
unfoldable pub hex_digit : ℕ → ℕ
hex_digit v = if ltb v 10 then 48 + v else 87 + v

-- `payload.hex()`
unfoldable pub to_hex : List ℕ → Text
unfolding hex_digit
to_hex [] = []
to_hex (b ∷ bs) = hex_digit (b / 16) ∷ hex_digit (b % 16) ∷ to_hex bs

-- The value of a hexadecimal digit; 16 stands for any other character.
unfoldable pub hex_value : ℕ → ℕ
unfolding is_digit
hex_value c =
    if is_digit c
    then c - 48
    else if leb 97 c && leb c 102
    then c - 87
    else if leb 65 c && leb c 70
    then c - 55
    else 16

-- `bytes.fromhex(s)`: white space may stand between the bytes, never inside one. The accumulator is
-- the first digit of a byte.
unfoldable pub from_hex_at : Option ℕ → Text → Result (List ℕ)
unfolding hex_value is_space
from_hex_at none [] = ok []
from_hex_at (some high) [] = err value_error
from_hex_at none (c ∷ s) =
    let blank = from_hex_at none s in
    let digit = from_hex_at (some (hex_value c)) s in
    if is_space c then blank else if ltb (hex_value c) 16 then digit else err value_error
from_hex_at (some high) (c ∷ s) =
    let rest = from_hex_at none s in
    if ltb (hex_value c) 16
    then then_do rest (λ bytes. ok ((high * 16 + hex_value c) ∷ bytes))
    else err value_error

unfoldable pub from_hex : Text → Result (List ℕ)
from_hex s = from_hex_at none s
