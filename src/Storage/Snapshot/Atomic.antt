-- ===== src/Storage/Snapshot/Atomic.antt =====
-- `load` of src/functional_model/storage/parameter_store.py that raises, or that finds no file.
use ethercat_device_simulato.Prelude.{
  ℕ, ◌≡◌, refl, arith, Bool, true, false, ◌&&◌, Option, none, some, List, [], ◌∷◌, if◌then◌else◌,
}
use ethercat_device_simulato.Exec.{value_error, Result, ok, err, then_do, ◌>>=◌, go_on, pure, ◌>>◌}
use ethercat_device_simulato.Text.{Text}
use ethercat_device_simulato.Value.{Value}
use ethercat_device_simulato.Codec.{Floats}
use ethercat_device_simulato.Od.{
  Key, Dict, storage_key, OdModel, definition, read, write, has_entry, key_eq,
}
use ethercat_device_simulato.Od.Laws.{definition-write, read-write_key}
use ethercat_device_simulato.Storage.Snapshot.{
  Json, Data, Device, Parsed, invalid, document, index_of, sub_of, definition_at, decoded_value,
  decoded_values, Values, same_keys, validated, parameter_values, checked_values, checked_body,
  checked, checked_parse, checked_document, write_all, load, or_value_error, require, raw_at,
}

-- `load` returned `True`.
abbrev pub is_loaded : Result Bool → Bool
is_loaded (ok b) = b
is_loaded (err e) = false

abbrev is_ok : {A : Type 0} → Result A → Bool
is_ok (ok a) = true
is_ok (err e) = false

module _ {F : Type 0} where
  all_defined : Dict (Value F) → OdModel F → Bool
  unfolding definition_at
  all_defined [] od = true
  all_defined ((key, v) ∷ rest) od = is_ok (definition_at key od) && all_defined rest od

  write-all_defined :
      (index : ℕ) (v : Value F) (sub : ℕ) (values : Dict (Value F)) (od : OdModel F)
      → all_defined values (write index v (some sub) od).1 ≡ all_defined values od
  unfolding all_defined definition_at
  write-all_defined index v sub [] od = refl
  write-all_defined index v sub ((key, w) ∷ rest) od =
      rw
        (
          definition-write index v (some sub) od (index_of key) (some (sub_of key)),
          write-all_defined index v sub rest od,
        )
        refl

  defined-write :
      (key : Key) (v : Value F) (od : OdModel F)
      → is_ok (definition_at key od) ≡ true
      → (write (index_of key) v (some (sub_of key)) od).0 ≡ ok tt
  unfolding definition_at write definition
  defined-write key v od h = ground arith

  defined-has_entry :
      (key : Key) (od : OdModel F)
      → is_ok (definition_at key od) ≡ true
      → has_entry (index_of key) (some (sub_of key)) od ≡ true
  unfolding definition_at has_entry definition
  defined-has_entry key od h = ground arith

module _ {F : Type 0} where
  -- The value that the loop leaves at a key.
  unfoldable pub last_value : Key → Dict (Value F) → Option (Value F)
  last_value k [] = none
  last_value k ((key, v) ∷ rest) = elim (last_value k rest) [
    | none ↦ if key_eq (storage_key (index_of key) (some (sub_of key))) k then some v else none
    | some w ↦ some w
  ]

  unfoldable pub read_or : Result (Value F) → Option (Value F) → Result (Value F)
  read_or r none = r
  read_or r (some v) = ok v

  -- What `load` writes to a key.
  unfoldable pub loaded_value : Key → Result (Dict (Value F)) → Option (Value F)
  unfolding last_value
  loaded_value k (ok decoded) = last_value k decoded
  loaded_value k (err e) = none

module _ {F : Type 0} (floats : Floats F) (json : Json F) where
  write_all-returns :
      (values : Dict (Value F)) (od : OdModel F)
      → all_defined values od ≡ true
      → (write_all floats json values od).0 ≡ ok tt
  unfolding write_all all_defined ◌>>=◌
  write_all-returns [] od h = refl
  write_all-returns ((key, v) ∷ rest) od h =
      let od' = (write (index_of key) v (some (sub_of key)) od).1 in
      ground (
        arith,
        defined-write key v od,
        write-all_defined (index_of key) v (sub_of key) rest od,
        write_all-returns rest od',
      )

  decoded_value-defined :
      (key : Key) (original : Text) (raw : Option Text) (od : OdModel F) (v : Value F)
      → decoded_value floats json key original raw od ≡ ok v
      → is_ok (definition_at key od) ≡ true
  unfolding decoded_value
  decoded_value-defined key original raw od v h = ground arith

  defined_result : OdModel F → Result (Dict (Value F)) → Bool
  defined_result od (ok decoded) = all_defined decoded od
  defined_result od (err e) = true

  decoded_values-defined :
      (expected : Dict Text) (values : Dict (Option Text)) (od : OdModel F)
      → defined_result od (decoded_values floats json expected values od) ≡ true
  unfolding decoded_values all_defined defined_result
  decoded_values-defined [] values od = refl
  decoded_values-defined ((key, original) ∷ expected) values od = ground (
    arith,
    decoded_value-defined key original (raw_at floats json key values) od,
    decoded_values-defined expected values od,
  )

  then_do-defined :
      {A : Type 0} (od : OdModel F) (r : Result A) (f : A → Result (Dict (Value F)))
      → ((a : A) → defined_result od (f a) ≡ true)
      → defined_result od (then_do r f) ≡ true
  unfolding defined_result
  then_do-defined od (ok a) f h = h a
  then_do-defined od (err e) f h = refl

  validated-defined :
      (od : OdModel F) (r : Result (Dict (Value F))) (validate : Dict (Value F) → Result (Unit {0}))
      → defined_result od r ≡ true
      → defined_result od (then_do r (λ decoded. then_do (validate decoded) (λ _. ok decoded)))
        ≡ true
  unfolding defined_result
  validated-defined od (ok decoded) validate h =
      then_do-defined od (validate decoded) (λ _. ok decoded) (λ _. h)
  validated-defined od (err e) validate h = refl

  checked_values-defined :
      (device : Device F) (expected : Dict Text) (values : Values) (od : OdModel F)
      → defined_result od (checked_values floats json device expected values od) ≡ true
  unfolding checked_values
  checked_values-defined device expected values od =
      then_do-defined od (require (same_keys values expected) value_error)
        (λ _.
          then_do (decoded_values floats json expected values.known od)
            (λ decoded. then_do (validated floats json device decoded) (λ _. ok decoded)))
        (λ _.
          validated-defined od (decoded_values floats json expected values.known od)
            (validated floats json device) (decoded_values-defined expected values.known od))

  checked_body-defined :
      (device : Device F) (body : Data) (od : OdModel F)
      → defined_result od (checked_body floats json device body od) ≡ true
  unfolding checked_body
  checked_body-defined device body od =
      then_do-defined od (parameter_values floats device od)
        (λ expected.
          then_do (or_value_error body.values)
            (λ values. checked_values floats json device expected values od))
        (λ expected.
          then_do-defined od (or_value_error body.values)
            (λ values. checked_values floats json device expected values od)
            (λ values. checked_values-defined device expected values od))

  checked_document-defined :
      (device : Device F) (body : Data) (digest : Option Text) (od : OdModel F)
      → defined_result od (checked_document floats json device body digest od) ≡ true
  unfolding checked_document defined_result
  checked_document-defined device body digest od =
      ground (arith, checked_body-defined device body od)

  checked_parse-defined :
      (device : Device F) (od : OdModel F) (p : Parsed)
      → defined_result od (checked_parse floats json device od p) ≡ true
  unfolding checked_parse defined_result
  checked_parse-defined device od (invalid e) = refl
  checked_parse-defined device od (document body digest) =
      checked_document-defined device body digest od

  checked-defined :
      (device : Device F) (content : List ℕ) (od : OdModel F)
      → defined_result od (checked floats json device content od) ≡ true
  unfolding checked
  checked-defined device content od = checked_parse-defined device od (json.parse content)

  unloaded :
      (od : OdModel F) (r : Result (Dict (Value F)))
      → defined_result od r ≡ true
      → is_loaded (go_on r (λ decoded. do write_all floats json decoded; pure true) od).0 ≡ false
      → (go_on r (λ decoded. do write_all floats json decoded; pure true) od).1 ≡ od
  unfolding defined_result ◌>>=◌
  unloaded od (ok decoded) h f = ground (arith, write_all-returns decoded od)
  unloaded od (err e) h f = refl

  -- Unless `load` returns `True`, the Object Dictionary is as before.
  pub load-unchanged :
      (device : Device F) (content : Option (List ℕ)) (od : OdModel F)
      → is_loaded (load floats json device content od).0 ≡ false
      → (load floats json device content od).1 ≡ od
  unfolding load ◌>>=◌
  load-unchanged device none od h = refl
  load-unchanged device (some content) od h =
      unloaded od (checked floats json device content od) (checked-defined device content od) h

  read-write_all :
      (index : ℕ) (sub : Option ℕ) (values : Dict (Value F)) (od : OdModel F)
      → all_defined values od ≡ true
      → read index sub (write_all floats json values od).1
        ≡ read_or (read index sub od) (last_value (storage_key index sub) values)
  unfolding write_all all_defined ◌>>=◌ last_value read_or
  read-write_all index sub [] od h = refl
  read-write_all index sub ((key, v) ∷ rest) od h =
      let od' = (write (index_of key) v (some (sub_of key)) od).1 in
      ground (
        arith,
        defined-write key v od,
        defined-has_entry key od,
        write-all_defined (index_of key) v (sub_of key) rest od,
        read-write_all index sub rest od',
        read-write_key (index_of key) v (some (sub_of key)) od index sub,
      )

  loaded_reads :
      (index : ℕ) (sub : Option ℕ) (od : OdModel F) (r : Result (Dict (Value F)))
      → defined_result od r ≡ true
      → read index sub (go_on r (λ vs. do write_all floats json vs; pure true) od).1
        ≡ read_or (read index sub od) (loaded_value (storage_key index sub) r)
  unfolding ◌>>=◌ defined_result loaded_value read_or
  loaded_reads index sub od (ok vs) h =
      ground (arith, write_all-returns vs od, read-write_all index sub vs od)
  loaded_reads index sub od (err e) h = refl

  -- The entries after `load`, by the values that it writes.
  pub reads_written :
      (device : Device F) (content : List ℕ) (index : ℕ) (sub : Option ℕ) (od : OdModel F)
      → read index sub (load floats json device (some content) od).1
        ≡ read_or
            (read index sub od)
            (loaded_value (storage_key index sub) (checked floats json device content od))
  unfolding load ◌>>=◌
  reads_written device content index sub od =
      loaded_reads index sub od (checked floats json device content od)
        (checked-defined device content od)
