-- ===== src/Bridge.antt =====
-- SDO and PDO access to the Object Dictionary: `VirtualOdBridge` of
-- src/functional_model/cia402_drive/profile/bridge.py, over the PDO entries of
-- src/functional_model/cia402_drive/profile/metadata.py.
pub mod RoundTrip
mod Tests
use Prim.Native.String.{String}
use package.text.Mathlib.Text.{◌==◌ as str_eq}
use ethercat_device_simulato.Prelude.{
  ℕ, ◌+◌, ◌/◌, Bool, true, false, ◌||◌, Option, none, some, List, [], ◌∷◌, ◌++◌, if◌then◌else◌, leb,
  ◌==◌, length, take, drop, replicate,
}
use ethercat_device_simulato.Exec.{
  Error, device_rejected, sdo_object_not_found, key_error, value_error, Result, ok, err, then_do,
  Exec, pure, raise, lift, check, when, ◌>>=◌, ◌>>◌,
}
use ethercat_device_simulato.Value.{Value}
use ethercat_device_simulato.DataType.{DataType, bit_length}
use ethercat_device_simulato.Codec.{Floats, encode, decode}
use ethercat_device_simulato.Od.{Definition, OdModel, definition, read, write, or_key_error}

-- `ObjectDictionaryEntry`, as far as the bridge reads it
pub record PdoEntry : Type 0 where
  pub index : ℕ
  pub subindex : ℕ
  pub data_type : DataType
  pub field : Option String

-- `byte_length`; an unknown type is a `KeyError`.
unfoldable pub byte_length : PdoEntry → Result ℕ
byte_length e = then_do (or_key_error (bit_length e.data_type)) (λ bits. ok (bits / 8))

-- `definition.access.lower() == "ro"`
unfoldable pub is_read_only : String → Bool
is_read_only a = str_eq a "ro" || str_eq a "RO" || str_eq a "Ro" || str_eq a "rO"

-- `obj.index == 0 or obj.field is None`
abbrev pub is_unmapped : PdoEntry → Bool
is_unmapped e = e.index == 0 || no_field e.field
  where
    no_field : Option String → Bool
    no_field none = true
    no_field (some f) = false

not_found : {X : Type 0} → Result X → Result X
not_found (ok x) = ok x
not_found (err key_error) = err sdo_object_not_found
not_found (err e) = err e

module _ {F : Type 0} (floats : Floats F) where
  -- `_definition(index, subindex)`
  definition_of : ℕ → ℕ → OdModel F → Result (Definition F)
  unfolding not_found
  definition_of index sub od = not_found (definition index (some sub) od)

  -- `read_sdo(index, subindex, size)`
  unfoldable pub read_sdo : ℕ → ℕ → ℕ → OdModel F → Result (List ℕ)
  unfolding definition_of
  read_sdo index sub size od =
      then_do (definition_of index sub od)
        (λ d. then_do (read index (some sub) od) (λ v. encode floats d.data_type v (some size)))

  -- `write_sdo(index, subindex, payload)`
  unfoldable pub write_sdo : ℕ → ℕ → List ℕ → Exec (OdModel F) (Unit {0})
  unfolding definition_of
  write_sdo index sub payload = do
    d ← (λ od. (definition_of index sub od, od))
    when (is_read_only d.access) (raise device_rejected)
    v ← lift (decode floats d.data_type payload)
    write index v (some sub)

  -- The body of the loop below the length test.
  store_field : PdoEntry → List ℕ → Exec (OdModel F) (Unit {0})
  store_field e raw =
      if is_unmapped e
      then pure tt
      else do v ← lift (decode floats e.data_type raw); write e.index v (some e.subindex)

  -- `rxpdo_payload_to_od(payload)`, from `offset`
  rxpdo_from : List PdoEntry → ℕ → List ℕ → Exec (OdModel F) (Unit {0})
  unfolding store_field
  rxpdo_from [] offset payload = pure tt
  rxpdo_from (e ∷ es) offset payload = do
    n ← lift (byte_length e)
    check (leb (offset + n) (length payload)) value_error
    store_field e (take n (drop offset payload))
    rxpdo_from es (offset + n) payload

  unfoldable pub rxpdo_payload_to_od : List PdoEntry → List ℕ → Exec (OdModel F) (Unit {0})
  unfolding rxpdo_from
  rxpdo_payload_to_od es payload = rxpdo_from es 0 payload

  field_bytes : PdoEntry → OdModel F → Result (List ℕ)
  field_bytes e od = then_do (byte_length e) (λ n.
      if is_unmapped e
      then ok (replicate n 0)
      else then_do (read e.index (some e.subindex) od) (λ v. encode floats e.data_type v (some n)))

  -- `od_to_txpdo_payload()`
  unfoldable pub od_to_txpdo_payload : List PdoEntry → OdModel F → Result (List ℕ)
  unfolding field_bytes
  od_to_txpdo_payload [] od = ok []
  od_to_txpdo_payload (e ∷ es) od =
      then_do (field_bytes e od)
        (λ bytes. then_do (od_to_txpdo_payload es od) (λ rest. ok (bytes ++ rest)))
