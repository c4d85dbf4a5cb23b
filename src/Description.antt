-- ===== src/Description.antt =====
-- The CMMT-specific SDO write with its save command: `CmmtAsDescription.write_sdo` of
-- device_descriptions/cmmt_as/description.py.
pub mod Effects
use ethercat_device_simulato.Prelude.{
  ℕ, Bool, true, false, ◌&&◌, Option, none, some, List, [], ◌∷◌, if◌then◌else◌, ◌==◌, length,
}
use ethercat_device_simulato.Exec.{
  Error, value_error, Result, ok, err, Exec, pure, raise, check, catching, on_part, ◌>>=◌, ◌>>◌,
}
use ethercat_device_simulato.Adapter.{DriveAdapter, Access, is_wo}

-- `payload == b'\x01'`
abbrev pub is_one_byte_1 : List ℕ → Bool
is_one_byte_1 (b ∷ []) = b == 1
is_one_byte_1 _ = false

abbrev pub is_some_save {ℓ} : {A : Type ℓ} → Option A → Bool
is_some_save none = false
is_some_save (some a) = true

module _ {A S : Type 0} (ops : DriveAdapter A) (get : S → A) (put : A → S → S) where
  abbrev on_adapter : {X : Type 0} → Exec A X → Exec S X
  on_adapter m = on_part get put m

  -- `adapter.read_sdo(...) if access != 'wo' else None`
  read_previous : ℕ → ℕ → ℕ → Access → Exec S (Option (List ℕ))
  read_previous index sub size access =
      if is_wo access
      then pure none
      else do bytes ← on_adapter (ops.read_sdo index sub size); pure (some bytes)

  -- The `except` clause: undo the command, then raise again.
  undo : ℕ → ℕ → Option (List ℕ) → Error → Exec S (Unit {0})
  undo index sub none e = raise e
  undo index sub (some bytes) e = do on_adapter (ops.write_sdo index sub bytes); raise e

  -- The body of `try`.
  save_selected : Exec S (Unit {0}) → Exec S (Unit {0})
  save_selected save = do
    selected ← on_adapter (ops.od_equals 0x2005 3 1)
    check selected value_error
    save

  report_saved : Exec S (Unit {0})
  report_saved = do
    on_adapter (ops.od_write_role "parameter_save_status" 0)
    on_adapter (ops.od_write_role "parameter_save_return_code" 0)
    on_adapter (ops.od_write_role "parameter_save_return_value" 1)

  run_save : ℕ → ℕ → Option (List ℕ) → Option (Exec S (Unit {0})) → Exec S (Unit {0})
  run_save index sub previous none = pure tt
  run_save index sub previous (some save) = do
    catching (save_selected save) (undo index sub previous)
    report_saved

  -- `write_sdo(adapter, index, sub, payload, access, save)`
  unfoldable pub write_sdo :
      ℕ → ℕ → List ℕ → Access → Option (Exec S (Unit {0})) → Exec S (Unit {0})
  unfolding read_previous undo save_selected report_saved run_save
  write_sdo index sub payload access save = do
    previous ← read_previous index sub (length payload) access
    on_adapter (ops.write_sdo index sub payload)
    if index == 0x2005 && sub == 1 && is_one_byte_1 payload
        then run_save index sub previous save
        else pure tt
