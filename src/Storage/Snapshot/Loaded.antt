-- ===== src/Storage/Snapshot/Loaded.antt =====
-- The values that `load` of src/functional_model/storage/parameter_store.py leaves in the Object Dictionary.
use ethercat_device_simulato.Prelude.{
  ℕ, ◌≡◌, refl, sym, subst, ◌∙◌, arith, Bool, true, false, ◌&&◌, ◌||◌, Option, none, some, List, [],
  ◌∷◌, if◌then◌else◌,
}
use ethercat_device_simulato.Exec.{
  value_error, Result, ok, err, then_do, go_on, pure, ResultHas, then_do-has, ResultHas-ok, ◌>>=◌,
  ◌>>◌,
}
use ethercat_device_simulato.Text.{Text, from_hex}
use ethercat_device_simulato.Value.{Value}
use ethercat_device_simulato.Codec.{Floats, decode}
use ethercat_device_simulato.Od.{Key, Dict, storage_key, OdModel, read, key_eq, key_eq_iff}
use ethercat_device_simulato.Storage.Snapshot.{
  Json, Data, Device, document, index_of, sub_of, definition_at, decoded_value, accepted,
  decoded_values, Values, same_keys, validated, parameter_values, checked_values, checked_body,
  checked, checked_parse, checked_document, load, write_all, or_value_error, require, raw_at,
  is_text,
}
use ethercat_device_simulato.Storage.Snapshot.Atomic.{
  last_value, read_or, loaded_value, reads_written,
}

-- The key has no subindex 0 written out.
abbrev is_canonical : Key → Bool
is_canonical key = key_eq (storage_key (index_of key) (some (sub_of key))) key

unfoldable pub all_canonical : Dict Text → Bool
all_canonical [] = true
all_canonical ((key, original) ∷ rest) = is_canonical key && all_canonical rest

unfoldable pub mentioned : Key → Dict Text → Bool
mentioned key [] = false
mentioned key ((k, original) ∷ rest) = key_eq k key || mentioned key rest

module _ {F : Type 0} where
  -- Where a key is mentioned its last value is that of `r`; a value there is comes from `r`.
  Right : Result (Value F) → Bool → Option (Value F) → Type 0
  Right r b none = b ≡ false
  Right r b (some v) = ok v ≡ r

  Right-first :
      (r : Result (Value F)) (v : Value F) (same b : Bool) (o : Option (Value F))
      → Right r b o
      → (same ≡ true → ok v ≡ r)
      → Right r (same || b) (elim o [ none ↦ if same then some v else none | some w ↦ some w ])
  unfolding Right
  Right-first r v true b none h f = f refl
  Right-first r v false b none h f = h
  Right-first r v same b (some w) h f = h

  read-Right :
      (old r : Result (Value F)) (o : Option (Value F)) → Right r true o → read_or old o ≡ r
  unfolding Right read_or
  read-Right old r none h = cc
  read-Right old r (some v) h = h

module _ {F : Type 0} (floats : Floats F) (json : Json F) where
  -- The value of a hexadecimal text for the entry at `key`: its bytes, decoded in the entry's data type.
  unfoldable pub text_value : Key → Option Text → OdModel F → Result (Value F)
  unfolding or_value_error definition_at
  text_value key raw od = then_do (or_value_error raw) (λ s.
      then_do (definition_at key od)
        (λ d. then_do (from_hex s) (λ payload. decode floats d.data_type payload)))

  decoded_value-text :
      (key : Key) (original : Text) (raw : Option Text) (od : OdModel F) (v : Value F)
      → decoded_value floats json key original raw od ≡ ok v
      → ok v ≡ text_value key raw od
  unfolding decoded_value accepted text_value
  decoded_value-text key original raw od v h = ground arith

  module _ (key : Key) (known : Dict (Option Text)) (od : OdModel F) where
    abbrev own_value : Result (Value F)
    own_value = text_value key (raw_at floats json key known) od

    own_decoded :
        (k : Key) (original : Text) (v : Value F)
        → decoded_value floats json k original (raw_at floats json k known) od ≡ ok v
        → key_eq k key ≡ true
        → ok v ≡ own_value
    own_decoded k original v h e =
        subst (λ j. ok v ≡ text_value j (raw_at floats json j known) od) ((key_eq_iff k key).0 e)
          (decoded_value-text k original (raw_at floats json k known) od v h)

    put_before :
        (k : Key) (v : Value F) (b : Bool)
        → is_canonical k ≡ true
        → (key_eq k key ≡ true → ok v ≡ own_value)
        → (r : Result (Dict (Value F)))
        → ResultHas (λ decoded. Right own_value b (last_value key decoded)) r
        → ResultHas
            (λ decoded. Right own_value (key_eq k key || b) (last_value key decoded))
            (then_do r (λ rest. ok ((k, v) ∷ rest)))
    unfolding ResultHas last_value
    put_before k v b c own (ok ds) h =
        subst
          (λ j. Right own_value (key_eq k key || b) (elim (last_value key ds) [
            | none ↦ if key_eq j key then some v else none
            | some w ↦ some w
          ]))
          (sym ((key_eq_iff (storage_key (index_of k) (some (sub_of k))) k).0 c))
          (Right-first own_value v (key_eq k key) b (last_value key ds) h own)
    put_before k v b c own (err e) h = tt

    decoded_values-Right :
        (expected : Dict Text)
        → all_canonical expected ≡ true
        → ResultHas
            (λ decoded. Right own_value (mentioned key expected) (last_value key decoded))
            (decoded_values floats json expected known od)
    unfolding decoded_values all_canonical mentioned last_value Right ResultHas
    decoded_values-Right [] c = refl
    decoded_values-Right ((k, original) ∷ rest) c =
        then_do-has _ (decoded_value floats json k original (raw_at floats json k known) od) _
          (λ v e.
            put_before k v (mentioned key rest) (ground (arith, c)) (own_decoded k original v e)
              (decoded_values floats json rest known od)
              (decoded_values-Right rest (ground (arith, c))))

  abbrev AllRight : Dict (Option Text) → OdModel F → Dict Text → Key → Dict (Value F) → Type 0
  AllRight known od expected key decoded =
      Right (own_value key known od) (mentioned key expected) (last_value key decoded)

  checked_values-right :
      (device : Device F) (values : Values) (od : OdModel F) (expected : Dict Text) (key : Key)
      → all_canonical expected ≡ true
      → ResultHas
          (AllRight values.known od expected key)
          (checked_values floats json device expected values od)
  unfolding checked_values ResultHas
  checked_values-right device values od expected key c =
      let Q = AllRight values.known od expected key in
      then_do-has Q (require (same_keys values expected) value_error) _ (λ _ _.
        then_do-has Q (decoded_values floats json expected values.known od) _ (λ decoded e.
          then_do-has Q (validated floats json device decoded) (λ _. ok decoded)
            (λ _ _.
              ResultHas-ok Q (decoded_values floats json expected values.known od) decoded e
                (decoded_values-Right key values.known od expected c))))

  checked_body-right :
      (device : Device F) (body : Data) (od : OdModel F) (values : Values) (expected : Dict Text)
      (key : Key)
      → body.values ≡ some values
      → parameter_values floats device od ≡ ok expected
      → all_canonical expected ≡ true
      → ResultHas (AllRight values.known od expected key) (checked_body floats json device body od)
  unfolding checked_body or_value_error
  checked_body-right device body od values expected key v p c =
      rw (p, v) (checked_values-right device values od expected key c)

  with_fact :
      {A : Type 0} (D : Type 0) (Q : A → Type 0) (r : Result A)
      → D
      → ResultHas Q r
      → ResultHas (λ a. D × Q a) r
  unfolding ResultHas
  with_fact D Q (ok a) d h = (d, h)
  with_fact D Q (err e) d h = tt

  require-true : (b : Bool) (u : Unit {0}) → require b value_error ≡ ok u → b ≡ true
  unfolding require
  require-true b u h = ground arith

  -- The values that passed all tests of `load`.
  checked-right :
      (device : Device F) (content : List ℕ) (od : OdModel F) (body : Data) (digest : Option Text)
      (values : Values) (expected : Dict Text) (key : Key)
      → json.parse content ≡ document body digest
      → body.values ≡ some values
      → parameter_values floats device od ≡ ok expected
      → all_canonical expected ≡ true
      → ResultHas
          (λ decoded.
            (is_text digest (json.digest body) ≡ true)
            × AllRight values.known od expected key decoded)
          (checked floats json device content od)
  unfolding checked checked_parse checked_document
  checked-right device content od body digest values expected key parsed v p c =
      let D = is_text digest (json.digest body) ≡ true in
      let Q = AllRight values.known od expected key in
      rw (parsed) (
        then_do-has (λ decoded. D × Q decoded)
          (require (is_text digest (json.digest body)) value_error) _
          (λ u e.
            then_do-has (λ decoded. D × Q decoded) _ _
              (λ _ _.
                with_fact D Q (checked_body floats json device body od)
                  (require-true (is_text digest (json.digest body)) u e)
                  (checked_body-right device body od values expected key v p c))))

  -- What `load` writes where it returns `True`.
  loaded-right :
      (D : Type 0) (known : Dict (Option Text)) (od : OdModel F) (expected : Dict Text) (key : Key)
      (old : Result (Value F)) (r : Result (Dict (Value F)))
      → mentioned key expected ≡ true
      → ResultHas (λ decoded. D × AllRight known od expected key decoded) r
      → (go_on r (λ vs. do write_all floats json vs; pure true) od).0 ≡ ok true
      → D × (read_or old (loaded_value key r) ≡ own_value key known od)
  unfolding ResultHas loaded_value ◌>>=◌
  loaded-right D known od expected key old (ok ds) m h l = (
    h.0,
    read-Right old (own_value key known od) (last_value key ds)
        (subst (λ b. Right (own_value key known od) b (last_value key ds)) m h.1),
  )
  loaded-right D known od expected key old (err e) m h l = cc

  -- Where `load` of a file returns `True`, the document's checksum is that of its data, and every entry
  -- that the drive persists reads as the document's text for it: its bytes, decoded in the entry's type.
  -- No key of the drive's parameters has a subindex 0 written out.
  pub read-load :
      (device : Device F) (content : List ℕ) (od : OdModel F) (body : Data) (digest : Option Text)
      (values : Values) (expected : Dict Text) (index : ℕ) (sub : Option ℕ)
      → json.parse content ≡ document body digest
      → body.values ≡ some values
      → parameter_values floats device od ≡ ok expected
      → all_canonical expected ≡ true
      → mentioned (storage_key index sub) expected ≡ true
      → (load floats json device (some content) od).0 ≡ ok true
      → (is_text digest (json.digest body) ≡ true)
        × (read index sub (load floats json device (some content) od).1
            ≡ text_value
                (storage_key index sub)
                (raw_at floats json (storage_key index sub) values.known)
                od)
  unfolding load ◌>>=◌
  read-load device content od body digest values expected index sub parsed v p c m loaded =
      let key = storage_key index sub in
      let (same_digest, reads) =
        loaded-right _ values.known od expected key (read index sub od)
          (checked floats json device content od) m
          (checked-right device content od body digest values expected key parsed v p c) loaded in
      (same_digest, reads_written floats json device content index sub od ∙ reads)
