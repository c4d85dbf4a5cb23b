-- ===== src/DataType.antt =====
-- The data types of Object Dictionary entries, as `normalize_od_data_type` of
-- src/functional_model/cia402_drive/profile/codec.py spells them, with the sizes of
-- src/functional_model/cia402_drive/profile/metadata.py. The spellings themselves (aliases, case,
-- blanks) are left out.
use ethercat_device_simulato.Prelude.{ℕ, ◌*◌, Bool, true, false, Option, none, some}

-- `other` is a name without a format; `blank` is the empty name.
pub data DataType : Type 0 where
  bool uint8 int8 uint16 int16 uint32 int32 uint64 int64 float32 : DataType
  byte_array string_like other blank : DataType
  padding : ℕ → DataType

-- The value of a `struct` format: a number of bytes, signed or not, a truth value or a float.
pub data Format : Type 0 where
  whole : ℕ → Bool → Format
  truth single : Format

-- `DATA_TYPE_FORMATS.get(name)`
unfoldable pub data_format : DataType → Option Format
data_format bool = some truth
data_format uint8 = some (whole 1 false)
data_format int8 = some (whole 1 true)
data_format uint16 = some (whole 2 false)
data_format int16 = some (whole 2 true)
data_format uint32 = some (whole 4 false)
data_format int32 = some (whole 4 true)
data_format uint64 = some (whole 8 false)
data_format int64 = some (whole 8 true)
data_format float32 = some single
data_format _ = none

-- `struct.calcsize`
abbrev pub calcsize : Format → ℕ
calcsize (whole n signed) = n
calcsize truth = 1
calcsize single = 4

-- `ObjectDictionaryEntry.bit_length`: `DATA_TYPE_BITS[name]`, or the bits of a padding. `none` is a
-- `KeyError`.
unfoldable pub bit_length : DataType → Option ℕ
unfolding data_format
bit_length (padding n) = some n
bit_length byte_array = some 0
bit_length string_like = some 0
bit_length t = elim (data_format t) [ none ↦ none | some f ↦ some (calcsize f * 8) ]
