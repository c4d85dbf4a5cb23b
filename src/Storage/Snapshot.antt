-- ===== src/Storage/Snapshot.antt =====
-- Parameter snapshots: `ParameterStore.load` and `save` of
-- src/functional_model/storage/parameter_store.py with `Model.parameter_values` of runtime/axis.py. JSON
-- and SHA-256 are parameters, as are the floats.
pub mod Atomic
pub mod Loaded
pub mod Shared
pub mod Tests
use ethercat_device_simulato.Prelude.{
  ℕ, zero, suc, ◌+◌, ◌/◌, ℤ, pos, Bool, true, false, not, ◌&&◌, ◌||◌, Option, none, some, List, [],
  ◌∷◌, if◌then◌else◌, ltb, ◌==◌, eqb_ℤ, length,
}
use ethercat_device_simulato.Exec.{
  Error, value_error, runtime_error, os_error, Result, ok, err, then_do, Exec, pure, lift, ◌>>=◌,
  ◌>>◌,
}
use ethercat_device_simulato.Text.{Text, text_eq, to_hex, from_hex}
use ethercat_device_simulato.Value.{Value, float}
use ethercat_device_simulato.DataType.{DataType}
use ethercat_device_simulato.Codec.{Floats, encode, decode}
use ethercat_device_simulato.Od.{
  Key, whole, part, Dict, lookup, put, Definition, OdModel, definition, read, write,
}
use ethercat_device_simulato.Bridge.{read_sdo, is_read_only}
use ethercat_device_simulato.Storage.Disk.{
  FileName, snapshot, temporary, Disk, FileOp, save_ops, save_until, save as save_file,
}

-- `identity(model)`
pub record Identity : Type 0 where
  pub profile : Text  -- `device['type']`
  pub kind : Text  -- `device['model']['type']`
  pub mode : Text

-- The `values` of a document. A key `hhhh:hh` in lower case stands for the storage key of its index and
-- subindex; `stray` says that there are others. `none` is a value that is no text.
pub record Values : Type 0 where
  pub known : Dict (Option Text)
  pub stray : Bool

-- A document without its checksum. `none` is a JSON value of another type.
pub record Data : Type 0 where
  pub schema_version : Option ℤ
  pub identity : Option Identity
  pub values : Option Values

-- What `read_json` and the test of the document's fields make of a file.
pub data Parsed : Type 0 where
  invalid : Error → Parsed
  document : Data → Option Text → Parsed  -- with the checksum

-- `json`, `hashlib` and `math.isfinite`
pub record Json (F : Type 0) : Type 0 where
  pub parse : List ℕ → Parsed
  pub digest : Data → Text
  pub dump : Data → Text → List (List ℕ)
  pub is_finite : F → Bool

-- What the store reads of a model besides its Object Dictionary; `validate` is
-- `validate_parameters`, where the adapter has it.
pub record Device (F : Type 0) : Type 0 where
  pub identity : Identity
  pub parameter_set : Text
  pub is_f_kr_cmmt : Bool
  pub persistent_roles : List Key
  pub validate : Option (Dict (Value F) → Result (Unit {0}))

unfoldable pub index_of : Key → ℕ
index_of (whole i) = i
index_of (part i sub) = i

unfoldable pub sub_of : Key → ℕ
sub_of (whole i) = 0
sub_of (part i sub) = sub

unfoldable pub require : Bool → Error → Result (Unit {0})
require true e = ok tt
require false e = err e

unfoldable pub identity_eq : Identity → Identity → Bool
unfolding text_eq
identity_eq a b = text_eq a.profile b.profile && text_eq a.kind b.kind && text_eq a.mode b.mode

-- All keys of the first are keys of the second.
unfoldable pub has_keys : {V W : Type 0} → Dict V → Dict W → Bool
has_keys [] d = true
has_keys ((k, v) ∷ rest) d = elim (lookup k d) [ none ↦ false | some w ↦ has_keys rest d ]

-- `set(values) == set(expected)`
unfoldable pub same_keys : Values → Dict Text → Bool
unfolding has_keys
same_keys values expected =
    not values.stray && has_keys values.known expected && has_keys expected values.known

unfoldable pub is_schema : Option ℤ → ℕ → Bool
is_schema none n = false
is_schema (some v) n = eqb_ℤ v (pos n)

unfoldable pub is_identity : Option Identity → Identity → Bool
unfolding identity_eq
is_identity none b = false
is_identity (some a) b = identity_eq a b

unfoldable pub is_text : Option Text → Text → Bool
is_text none s = false
is_text (some t) s = text_eq t s

unfoldable pub or_value_error {ℓ} : {A : Type ℓ} → Option A → Result A
or_value_error none = err value_error
or_value_error (some a) = ok a

module _ {F : Type 0} where
  -- `schema_version(model)`
  unfoldable pub schema_version : Device F → ℕ
  schema_version device = if device.is_f_kr_cmmt then 2 else 1

  unfoldable pub definition_at : Key → OdModel F → Result (Definition F)
  definition_at key od = definition (index_of key) (some (sub_of key)) od

module _ {F : Type 0} (floats : Floats F) where
  -- The text of one value.
  unfoldable pub parameter_value : Key → OdModel F → Result Text
  unfolding definition_at
  parameter_value key od = then_do (definition_at key od) (λ d.
      then_do (read_sdo floats (index_of key) (sub_of key) (d.bit_size / 8) od)
        (λ bytes. ok (to_hex bytes)))

  unfoldable pub parameters_into : Dict Text → List Key → OdModel F → Result (Dict Text)
  unfolding parameter_value
  parameters_into values [] od = ok values
  parameters_into values (key ∷ keys) od =
      then_do (parameter_value key od) (λ s. parameters_into (put key s values) keys od)

  -- `model.parameter_values()`
  unfoldable pub parameter_values : Device F → OdModel F → Result (Dict Text)
  unfolding parameters_into
  parameter_values device od = parameters_into [] device.persistent_roles od

module _ {F : Type 0} (floats : Floats F) (json : Json F) where
  unfoldable pub is_finite_value : Value F → Bool
  is_finite_value (float x) = json.is_finite x
  is_finite_value v = true

  -- What `load` tests of a decoded value.
  unfoldable pub accepted : Definition F → Text → Text → Value F → Result (Value F)
  unfolding is_finite_value require
  accepted d raw original v = then_do (require (is_finite_value v) value_error) (λ _.
      then_do (encode floats d.data_type v (some (length raw / 2))) (λ _.
        then_do (require (not (is_read_only d.access && not (text_eq raw original))) value_error)
          (λ _. ok v)))

  -- One round of the loop in `load`, without the `append`.
  unfoldable pub decoded_value : Key → Text → Option Text → OdModel F → Result (Value F)
  unfolding accepted require or_value_error definition_at
  decoded_value key original raw od = then_do (or_value_error raw) (λ s.
      then_do (require (length s == length original) value_error) (λ _.
        then_do (definition_at key od) (λ d.
          then_do (from_hex s)
            (λ payload. then_do (decode floats d.data_type payload) (accepted d s original)))))

  -- `values[key]` of a key that is there.
  unfoldable pub raw_at : Key → Dict (Option Text) → Option Text
  raw_at key values = elim (lookup key values) [ none ↦ none | some raw ↦ raw ]

  -- `decoded`
  unfoldable pub decoded_values :
      Dict Text → Dict (Option Text) → OdModel F → Result (Dict (Value F))
  unfolding decoded_value raw_at
  decoded_values [] values od = ok []
  decoded_values ((key, original) ∷ expected) values od =
      then_do (decoded_value key original (raw_at key values) od)
        (λ v. then_do (decoded_values expected values od) (λ rest. ok ((key, v) ∷ rest)))

  unfoldable pub validated : Device F → Dict (Value F) → Result (Unit {0})
  validated device values = elim (device.validate) [
    | none ↦ ok tt
    | some validate ↦ validate values
  ]

  -- `load` from the test of the document's keys to the first write.
  unfoldable pub checked_values :
      Device F → Dict Text → Values → OdModel F → Result (Dict (Value F))
  unfolding require same_keys decoded_values validated
  checked_values device expected values od =
      then_do (require (same_keys values expected) value_error) (λ _.
        then_do (decoded_values expected values.known od)
          (λ decoded. then_do (validated device decoded) (λ _. ok decoded)))

  unfoldable pub checked_body : Device F → Data → OdModel F → Result (Dict (Value F))
  unfolding parameter_values or_value_error checked_values
  checked_body device body od = then_do (parameter_values floats device od) (λ expected.
      then_do (or_value_error body.values) (λ values. checked_values device expected values od))

  -- `load` up to the first write.
  unfoldable pub checked_document :
      Device F → Data → Option Text → OdModel F → Result (Dict (Value F))
  unfolding require is_text is_schema is_identity schema_version checked_body
  checked_document device body digest od =
      then_do (require (is_text digest (json.digest body)) value_error) (λ _.
        then_do
          (require
            (is_schema body.schema_version (schema_version device)
              && is_identity body.identity device.identity)
            value_error)
          (λ _. checked_body device body od))

  unfoldable pub checked_parse : Device F → OdModel F → Parsed → Result (Dict (Value F))
  unfolding checked_document
  checked_parse device od (invalid e) = err e
  checked_parse device od (document body digest) = checked_document device body digest od

  unfoldable pub checked : Device F → List ℕ → OdModel F → Result (Dict (Value F))
  unfolding checked_parse
  checked device content od = checked_parse device od (json.parse content)

  -- The loop that writes.
  unfoldable pub write_all : Dict (Value F) → Exec (OdModel F) (Unit {0})
  write_all [] = pure tt
  write_all ((key, v) ∷ rest) = do write (index_of key) v (some (sub_of key)); write_all rest

  -- `load(model)`; the content is `none` where the file does not exist.
  unfoldable pub load : Device F → Option (List ℕ) → Exec (OdModel F) Bool
  unfolding checked write_all
  load device none = pure false
  load device (some content) = do
    decoded ← (λ od. (checked device content od, od))
    write_all decoded
    pure true

  -- The values that `validate_parameters` sees before a save.
  unfoldable pub current_values : List Key → OdModel F → Result (Dict (Value F))
  current_values [] od = ok []
  current_values (key ∷ keys) od =
      then_do (read (index_of key) (some (sub_of key)) od)
        (λ v. then_do (current_values keys od) (λ rest. ok ((key, v) ∷ rest)))

  unfoldable pub validate_current : Device F → OdModel F → Result (Unit {0})
  unfolding current_values
  validate_current device od = elim (device.validate) [
    | none ↦ ok tt
    | some validate ↦ then_do (current_values device.persistent_roles od) validate
  ]

  unfoldable pub known_values : Dict Text → Dict (Option Text)
  known_values [] = []
  known_values ((key, s) ∷ rest) = (key, some s) ∷ known_values rest

  -- `dict(schema_version=..., identity=..., values=...)`
  unfoldable pub saved_data : Device F → Dict Text → Data
  unfolding schema_version known_values
  saved_data device values = record {
    schema_version = some (pos (schema_version device));
    identity = some device.identity;
    values = some (record { known = known_values values; stray = false });
  }

  -- `save(model)` up to `mkstemp`: what will be written.
  unfoldable pub prepared : Bool → Device F → OdModel F → Result (List (List ℕ))
  unfolding require validate_current parameter_values saved_data
  prepared locked device od = then_do (require locked runtime_error) (λ _.
      then_do (validate_current device od) (λ _.
        then_do (parameter_values floats device od) (λ values.
          let body = saved_data device values in ok (json.dump body (json.digest body)))))

  -- The file operations; `failure` is the number of the first that the system refuses.
  unfoldable pub write_out : Option ℕ → ℕ → Text → List (List ℕ) → Exec Disk (Unit {0})
  write_out none key name pieces disk =
      (ok tt, save_file true (temporary key) (snapshot name) pieces disk)
  write_out (some n) key name pieces disk =
      let ops = save_ops true (temporary key) (snapshot name) pieces in
      if ltb n (length ops)
      then (err os_error, save_until true n ops (temporary key) disk)
      else (ok tt, save_file true (temporary key) (snapshot name) pieces disk)

  -- `save(model)` on a POSIX system
  unfoldable pub save : Bool → Option ℕ → ℕ → Device F → OdModel F → Exec Disk (Unit {0})
  unfolding prepared write_out
  save locked failure key device od = do
    pieces ← lift (prepared locked device od)
    write_out failure key device.parameter_set pieces
