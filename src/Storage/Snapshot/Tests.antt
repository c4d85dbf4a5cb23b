-- ===== src/Storage/Snapshot/Tests.antt =====
-- Loads of a snapshot with one parameter, as src/functional_model/storage/parameter_store.py does them.
use ethercat_device_simulato.Prelude.{
  ℕ, pos, ◌≡◌, refl, true, false, none, some, List, [], ◌∷◌, to_le, from_le,
}
use ethercat_device_simulato.Exec.{ok, ◌>>=◌}
use ethercat_device_simulato.Text.{
  codes, text_eq, to_hex, from_hex, from_hex_at, hex_digit, hex_value, is_space, is_digit,
}
use ethercat_device_simulato.Value.{int}
use ethercat_device_simulato.DataType.{uint32, data_format}
use ethercat_device_simulato.Codec.{encode, decode, of_word, to_word, fits, pack_whole}
use ethercat_device_simulato.Codec.Tests.{floats}
use ethercat_device_simulato.Od.{
  whole, key_eq, lookup, put, storage_key, OdModel, Changes, empty, define, definition, read, write,
}
use ethercat_device_simulato.Bridge.{is_read_only, read_sdo}
use ethercat_device_simulato.Storage.Snapshot.{
  Identity, Data, document, Json, Device, checked, load, parameter_values, index_of, sub_of,
  is_text, raw_at,
}
use ethercat_device_simulato.Storage.Snapshot.Atomic.{is_loaded, load-unchanged}
use ethercat_device_simulato.Storage.Snapshot.Loaded.{
  all_canonical, mentioned, text_value, read-load,
}

abbrev pub identity : Identity
identity = record {
  profile = codes "cia402-drive";
  kind = codes "f_kr_cmmt";
  mode = codes "linear";
}

-- The document of a file: the file is the text of the parameter.
abbrev pub document_of : List ℕ → Data
document_of content = record {
  schema_version = some (pos 2);
  identity = some identity;
  values = some (record { known = (whole 0x6081, some content) ∷ []; stray = false });
}

abbrev pub json : Json ℕ
json = record {
  parse = λ content. document (document_of content) (some (codes "digest"));
  digest = λ body. codes "digest";
  dump = λ body digest. digest ∷ [];
  is_finite = λ x. true;
}

abbrev pub device : Device ℕ
device = record {
  identity = identity;
  parameter_set = codes "axis-0";
  is_f_kr_cmmt = true;
  persistent_roles = whole 0x6081 ∷ [];
  validate = none;
}

abbrev velocity : Changes ℕ
velocity = record {
  name = "Profile velocity";
  data_type = uint32;
  bit_size = 32;
  access = some "rw";
  default = some (int (pos 5));
  role = none;
  rxpdo = none;
  txpdo = none;
}

abbrev pub od : OdModel ℕ
od = define 0x6081 0 velocity empty

values_are_hex : parameter_values floats device od ≡ ok ((whole 0x6081, codes "05000000") ∷ [])
unfolding index_of sub_of to_le parameter_values define definition read lookup put key_eq
    storage_key read_sdo encode pack_whole to_word fits data_format to_hex hex_digit
values_are_hex = refl

-- A text that is too short, and one that is accepted.
short_file : is_loaded (load floats json device (some (codes "050000")) od).0 ≡ false
unfolding index_of sub_of to_le from_le load checked parameter_values define definition read write
    lookup put key_eq storage_key read_sdo is_read_only encode decode of_word pack_whole to_word
    fits data_format to_hex hex_digit from_hex from_hex_at hex_value is_space is_digit text_eq ◌>>=◌
short_file = refl

load-unchanged_example : (load floats json device (some (codes "050000")) od).1 ≡ od
load-unchanged_example = load-unchanged floats json device (some (codes "050000")) od short_file

full_file : (load floats json device (some (codes "07010000")) od).0 ≡ ok true
unfolding index_of sub_of to_le from_le load checked parameter_values define definition read write
    lookup put key_eq storage_key read_sdo is_read_only encode decode of_word pack_whole to_word
    fits data_format to_hex hex_digit from_hex from_hex_at hex_value is_space is_digit text_eq ◌>>=◌
full_file = refl

-- The text 07010000 is 263.
read-load_example :
    (is_text (some (codes "digest")) (json.digest (document_of (codes "07010000"))) ≡ true)
    × (read 0x6081 none (load floats json device (some (codes "07010000")) od).1
        ≡ text_value floats json (storage_key 0x6081 none) (some (codes "07010000")) od)
unfolding all_canonical mentioned key_eq storage_key raw_at lookup index_of sub_of
read-load_example =
    read-load floats json device (codes "07010000") od (document_of (codes "07010000"))
      (some (codes "digest"))
      (record { known = (whole 0x6081, some (codes "07010000")) ∷ []; stray = false })
      ((whole 0x6081, codes "05000000") ∷ []) 0x6081 none refl refl values_are_hex refl refl
      full_file

read_value : text_value floats json (whole 0x6081) (some (codes "07010000")) od ≡ ok (int (pos 263))
unfolding text_value from_hex from_hex_at hex_value is_space is_digit decode of_word from_le put
    data_format definition lookup storage_key key_eq define index_of sub_of
read_value = refl
