-- ===== src/Codec.antt =====
-- OD values and bytes: `encode_od_value` and `decode_od_value` of
-- src/functional_model/cia402_drive/profile/codec.py. `struct.error` and `OverflowError` are `other`.
pub mod RoundTrip
pub mod Tests
use ethercat_device_simulato.Prelude.{
  ℕ, zero, suc, ◌+◌, ◌-◌, ◌*◌, ◌/◌, ◌^◌, ℤ, pos, negsuc, Bool, true, false, not, ◌&&◌, Option, none,
  some, List, [], ◌∷◌, ◌++◌, map, if◌then◌else◌, ltb, leb, ◌==◌, replicate, length, take, from_le,
  to_le,
}
use ethercat_device_simulato.Exec.{Error, value_error, other, Result, ok, err, then_do}
use ethercat_device_simulato.Value.{Value, int, float, str, bytes}
use ethercat_device_simulato.DataType.{
  DataType, Format, whole, truth, single, data_format, calcsize, byte_array, string_like,
}

-- What the codec uses of Python's floats and texts.
pub record Floats (F : Type 0) : Type 0 where
  -- `int(x)`, which raises for NaN and the infinities
  pub trunc : F → Result ℤ
  -- `int(text)` and `int(bytes)`
  pub parse_int : List ℕ → Result ℤ
  -- `struct.pack("<f", x)` of a float and of an int
  pub pack_single : F → Result (List ℕ)
  pub pack_single_int : ℤ → Result (List ℕ)
  -- `struct.unpack("<f", four_bytes)[0]`
  pub unpack_single : List ℕ → F
  -- `str(x)` of a value that is no text
  pub show : Value F → List ℕ

-- The number whose bytes stand for a signed value: two's complement over `256 ^ n`.
unfoldable pub to_word : ℕ → ℤ → ℕ
to_word n (pos v) = v
to_word n (negsuc v) = 256 ^ n - (v + 1)

-- Back from the bytes of a word.
unfoldable pub of_word : ℕ → Bool → ℕ → ℤ
of_word n false w = pos w
of_word n true w = if ltb (w * 2) (256 ^ n) then pos w else negsuc (256 ^ n - w - 1)

-- The values that `n` bytes hold.
unfoldable pub fits : ℕ → Bool → ℤ → Bool
fits n false (pos v) = ltb v (256 ^ n)
fits n false (negsuc v) = false
fits n true (pos v) = ltb (v * 2) (256 ^ n)
fits n true (negsuc v) = leb ((v + 1) * 2) (256 ^ n)

-- `struct.pack` of a whole number
unfoldable pub pack_whole : ℕ → Bool → ℤ → Result (List ℕ)
unfolding to_word fits
pack_whole n signed v = if fits n signed v then ok (to_le n (to_word n v)) else err other

abbrev is_negative : ℤ → Bool
is_negative (pos v) = false
is_negative (negsuc v) = true

module _ {F : Type 0} (floats : Floats F) where
  -- `int(value)`
  to_int : Value F → Result ℤ
  to_int (int v) = ok v
  to_int (float x) = floats.trunc x
  to_int (str s) = floats.parse_int s
  to_int (bytes b) = floats.parse_int b

  -- `bytes(value)`
  to_bytes : Value F → Result (List ℕ)
  to_bytes (int (pos n)) = ok (replicate n 0)
  to_bytes (int (negsuc n)) = err value_error
  to_bytes (float x) = err other
  to_bytes (str s) = err other
  to_bytes (bytes b) = ok b

  -- `payload[:size] + bytes(max(0, size - len(payload)))`
  fit_bytes : Option ℕ → List ℕ → List ℕ
  fit_bytes none payload = payload
  fit_bytes (some size) payload = take size payload ++ replicate (size - length payload) 0

  ascii : ℕ → ℕ
  ascii c = if ltb c 128 then c else 63

  -- `str(value).encode("ascii", errors="replace")`
  to_ascii : Value F → List ℕ
  unfolding ascii
  to_ascii (str s) = map ascii s
  to_ascii v = map ascii (floats.show v)

  cut : Option ℕ → List ℕ → List ℕ
  cut none payload = payload
  cut (some size) payload = take size payload

  pack_truth : ℤ → List ℕ
  pack_truth (pos zero) = 0 ∷ []
  pack_truth v = 1 ∷ []

  pack_float : Value F → Result (List ℕ)
  pack_float (int v) = floats.pack_single_int v
  pack_float (float x) = floats.pack_single x
  pack_float v = err other

  -- `struct.pack(data_format, value)`, with `int(value)` first unless the type is float32
  pack : Format → Value F → Result (List ℕ)
  unfolding pack_float pack_truth to_int
  pack (whole n signed) v = then_do (to_int v) (pack_whole n signed)
  pack truth v = then_do (to_int v) (λ n. ok (pack_truth n))
  pack single v = pack_float v

  -- `int(value).to_bytes(size, "little", signed=int(value) < 0)`
  pack_sized : Option ℕ → Value F → Result (List ℕ)
  unfolding to_int
  pack_sized none v = err value_error
  pack_sized (some size) v = then_do (to_int v) (λ n. pack_whole size (is_negative n) n)

  formatted : Option Format → Option ℕ → Value F → Result (List ℕ)
  unfolding pack pack_sized
  formatted none size v = pack_sized size v
  formatted (some f) size v = pack f v

  -- `encode_od_value(data_type, value, size)`
  unfoldable pub encode : DataType → Value F → Option ℕ → Result (List ℕ)
  unfolding to_bytes fit_bytes to_ascii cut formatted
  encode byte_array v size = then_do (to_bytes v) (λ payload. ok (fit_bytes size payload))
  encode string_like v size = ok (cut size (to_ascii v))
  encode t v size = formatted (data_format t) size v

  -- `payload.split(b"\x00", 1)[0].decode("ascii", errors="replace")`
  from_ascii : List ℕ → List ℕ
  from_ascii [] = []
  from_ascii (b ∷ rest) =
      let tail = from_ascii rest in if b == 0 then [] else (if ltb b 128 then b else 0xfffd) ∷ tail

  truth_of : ℕ → ℤ
  truth_of n = if n == 0 then pos 0 else pos 1

  unpack : Format → List ℕ → Value F
  unfolding truth_of
  unpack (whole n signed) payload = int (of_word n signed (from_le payload))
  unpack truth payload = int (truth_of (from_le payload))
  unpack single payload = float (floats.unpack_single payload)

  -- `struct.unpack(data_format, payload[:size])[0]`
  unpack_prefix : Format → List ℕ → Result (Value F)
  unfolding unpack
  unpack_prefix f payload =
      if length (take (calcsize f) payload) == calcsize f
      then ok (unpack f (take (calcsize f) payload))
      else err other

  unformatted : Option Format → List ℕ → Result (Value F)
  unfolding unpack_prefix
  unformatted none payload = ok (int (pos (from_le payload)))
  unformatted (some f) payload = unpack_prefix f payload

  -- `decode_od_value(data_type, payload)`
  unfoldable pub decode : DataType → List ℕ → Result (Value F)
  unfolding from_ascii unformatted
  decode byte_array payload = ok (bytes payload)
  decode string_like payload = ok (str (from_ascii payload))
  decode t payload = unformatted (data_format t) payload
