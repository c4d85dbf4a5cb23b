-- ===== src/Bridge/RoundTrip.antt =====
-- Writing and reading through src/functional_model/cia402_drive/profile/bridge.py.
use ethercat_device_simulato.Prelude.{
  ℕ, suc, ◌≡◌, refl, ap, ◌∙◌, arith, Bool, true, false, some, List, length, AllBytes,
}
use ethercat_device_simulato.Exec.{ok, err, device_rejected, ◌>>=◌}
use ethercat_device_simulato.Value.{Value, int}
use ethercat_device_simulato.Codec.{Floats, encode, decode}
use ethercat_device_simulato.Codec.RoundTrip.{IsWhole, encode-decode}
use ethercat_device_simulato.Od.{
  Definition, OdModel, definition, read, write, has_entry, key_eq_iff, storage_key,
}
use ethercat_device_simulato.Od.Laws.{write-defined, read-write_key, definition-write}
use ethercat_device_simulato.Bridge.{is_read_only, not_found, definition_of, read_sdo, write_sdo}

module _ {F : Type 0} (floats : Floats F) (index sub : ℕ) (od : OdModel F) (d : Definition F) where
  -- A write to a read-only entry is rejected and changes nothing.
  pub write_sdo_read_only :
      (payload : List ℕ)
      → definition index (some sub) od ≡ ok d
      → is_read_only d.access ≡ true
      → write_sdo floats index sub payload od ≡ (err device_rejected, od)
  unfolding write_sdo definition_of not_found ◌>>=◌
  write_sdo_read_only payload h k = rw (h, k)

  write_sdo-eq :
      (payload : List ℕ) (v : Value F)
      → definition index (some sub) od ≡ ok d
      → is_read_only d.access ≡ false
      → decode floats d.data_type payload ≡ ok v
      → write_sdo floats index sub payload od ≡ write index v (some sub) od
  unfolding write_sdo definition_of not_found ◌>>=◌
  write_sdo-eq payload v h k e = rw (h, k, e)

  read_sdo-eq :
      (v : Value F) (size : ℕ)
      → definition index (some sub) od ≡ ok d
      → read index (some sub) od ≡ ok v
      → read_sdo floats index sub size od ≡ encode floats d.data_type v (some size)
  unfolding read_sdo definition_of not_found
  read_sdo-eq v size h k = rw (h, k)

  has_entry-definition :
      definition index (some sub) od ≡ ok d → has_entry index (some sub) od ≡ true
  unfolding has_entry definition
  has_entry-definition h = ground arith

  read-written :
      (v : Value F)
      → definition index (some sub) od ≡ ok d
      → read index (some sub) (write index v (some sub) od).1 ≡ ok v
  read-written v h =
      read-write_key index v (some sub) od index (some sub)
      ∙ rw (
        has_entry-definition h,
        (key_eq_iff (storage_key index (some sub)) (storage_key index (some sub))).1 refl,
      )

module _ {F : Type 0} (floats : Floats F) where
  -- A payload of a whole-number entry that is not read-only is accepted, and the next read of the entry
  -- returns its bytes.
  pub sdo_round_trip :
      (index sub n : ℕ) (signed : Bool) (payload : List ℕ) (od : OdModel F) (d : Definition F)
      → definition index (some sub) od ≡ ok d
      → is_read_only d.access ≡ false
      → IsWhole d.data_type n signed
      → length payload ≡ suc n
      → AllBytes payload
      → ((write_sdo floats index sub payload od).0 ≡ ok tt)
        × (read_sdo floats index sub (suc n) (write_sdo floats index sub payload od).1 ≡ ok payload)
  sdo_round_trip index sub n signed payload od d h writable whole size bytes =
      let (v, decoded, fit, encoded) =
        encode-decode floats d.data_type n signed payload (some (suc n)) whole size bytes in
      let written = write_sdo-eq floats index sub od d payload (int v) h writable decoded in
      (
        ap (λ r. r.0) written ∙ write-defined index (int v) (some sub) od d h,
        ap (λ r. read_sdo floats index sub (suc n) r.1) written
            ∙ read_sdo-eq floats index sub (write index (int v) (some sub) od).1 d (int v) (suc n)
                (definition-write index (int v) (some sub) od index (some sub) ∙ h)
                (read-written floats index sub od d (int v) h)
            ∙ encoded,
      )
