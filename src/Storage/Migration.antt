-- ===== src/Storage/Migration.antt =====
-- The migration of a snapshot from schema 1 to schema 2: `migrate_profile_velocity` of
-- src/functional_model/storage/migrate.py.
pub mod Backup
pub mod Original
mod Tests
use ethercat_device_simulato.Prelude.{
  ℕ, ℤ, pos, negsuc, Bool, true, false, not, ◌&&◌, Option, none, some, List, [], ◌∷◌, ◌++◌,
  if◌then◌else◌, ltb, leb, to_le, length, take,
}
use ethercat_device_simulato.Exec.{
  Error, value_error, runtime_error, os_error, Result, ok, err, then_do, Exec, pure, raise, lift,
  on_part, ◌>>=◌, ◌>>◌,
}
use ethercat_device_simulato.Text.{Text, text_eq, to_hex}
use ethercat_device_simulato.Codec.{Floats}
use ethercat_device_simulato.Od.{Key, whole, Dict, key_eq, put, OdModel}
use ethercat_device_simulato.Storage.Disk.{
  FileName, snapshot, backup, File, Disk, FileOp, create, append, fsync, apply, run, file,
}
use ethercat_device_simulato.Storage.Snapshot.{
  Values, Data, Parsed, invalid, document, Json, Device, require, is_text, is_schema, is_identity,
  same_keys, or_value_error, parameter_values, load, save,
}

-- `value` as an explicit uint32; `none` is no `int`.
unfoldable pub velocity_value : Option ℤ → Result ℕ
unfolding require
velocity_value none = err value_error
velocity_value (some (negsuc v)) = err value_error
velocity_value (some (pos v)) = then_do (require (leb v 0xffffffff) value_error) (λ _. ok v)

-- The expected values without `6081:00`.
unfoldable pub without_velocity : Dict Text → Dict Text
unfolding key_eq
without_velocity [] = []
without_velocity ((key, s) ∷ rest) =
    if key_eq key (whole 0x6081) then without_velocity rest else (key, s) ∷ without_velocity rest

-- `value.to_bytes(4, 'little').hex()` put into the values
unfoldable pub with_velocity : ℕ → Values → Values
with_velocity v values = record values {
  known = put (whole 0x6081) (some (to_hex (to_le 4 v))) values.known;
}

abbrev pub bytes_of : Option File → Result (List ℕ)
bytes_of none = err os_error
bytes_of (some f) = ok f.content

-- The bytes of a file, or `FileNotFoundError`
unfoldable pub read_bytes : FileName → Disk → Result (List ℕ)
read_bytes name disk = bytes_of (file name disk)

-- The writing of the backup.
unfoldable pub backup_ops : FileName → List ℕ → List FileOp
backup_ops name original = create name ∷ append name original ∷ fsync name ∷ []

-- With the number of the first operation that the system refuses.
unfoldable pub write_backup : Option ℕ → FileName → List ℕ → Exec Disk (Unit {0})
unfolding backup_ops run
write_backup none name original disk = (ok tt, run (backup_ops name original) disk)
write_backup (some n) name original disk =
    if ltb n 3
    then (err os_error, run (take n (backup_ops name original)) disk)
    else (ok tt, run (backup_ops name original) disk)

unfoldable pub check_backup : Option File → Option ℕ → FileName → List ℕ → Exec Disk (Unit {0})
unfolding write_backup text_eq
check_backup none failure name original disk = write_backup failure name original disk
check_backup (some f) failure name original disk =
    if text_eq f.content original then (ok tt, disk) else (err value_error, disk)

-- From `backup = ...` to the save.
unfoldable pub keep_backup : Option ℕ → Text → List ℕ → Exec Disk (Unit {0})
unfolding check_backup
keep_backup failure name original disk =
    check_backup (file (backup name) disk) failure (backup name) original disk

module _ {F : Type 0} (floats : Floats F) (json : Json F) (dumps : Data → Text → List ℕ)
    (device : Device F) where
  -- The model's Object Dictionary and the storage directory.
  abbrev State : Type 0
  State = OdModel F × Disk

  abbrev on_od : {X : Type 0} → Exec (OdModel F) X → Exec State X
  on_od = on_part (λ (s : State). s.0) (λ od s. (od, s.1))

  abbrev on_disk : {X : Type 0} → Exec Disk X → Exec State X
  on_disk = on_part (λ (s : State). s.1) (λ disk s. (s.0, disk))

  -- The document in schema 2.
  unfoldable pub upgraded : ℕ → Data → Option Text → OdModel F → Result Data
  unfolding require is_text is_schema is_identity parameter_values or_value_error same_keys
      without_velocity with_velocity
  upgraded v body digest od =
      then_do (require (is_text digest (json.digest body)) value_error) (λ _.
        then_do (require (is_schema body.schema_version 1) value_error) (λ _.
          then_do (require (is_identity body.identity device.identity) value_error) (λ _.
            then_do (parameter_values floats device od) (λ expected.
              then_do (or_value_error body.values) (λ values.
                then_do (require (same_keys values (without_velocity expected)) value_error) (λ _.
                  ok (record body {
                    schema_version = some (pos 2);
                    values = some (with_velocity v values);
                  })))))))

  -- A document that is not in schema 2 yet.
  unfoldable pub upgrade :
      Bool → Option ℕ → Option ℕ → ℕ → ℕ → List ℕ → Data → Option Text → Exec State Bool
  unfolding upgraded keep_backup load save
  upgrade locked backup_failure save_failure key v original body digest = do
    new ← (λ (s : State). (upgraded v body digest s.0, s))
    on_od (load floats json device (some (dumps new (json.digest new))))
    on_disk (keep_backup backup_failure device.parameter_set original)
    (λ (s : State). on_disk (save floats json locked save_failure key device s.0) s)
    pure true

  unfoldable pub migrate_document :
      Bool → Option ℕ → Option ℕ → ℕ → ℕ → List ℕ → Parsed → Exec State Bool
  unfolding upgrade is_schema load
  migrate_document locked backup_failure save_failure key v original (invalid e) = raise e
  migrate_document locked backup_failure save_failure key v original (document body digest) =
      if is_schema body.schema_version 2
      then (do on_od (load floats json device (some original)); pure false)
      else upgrade locked backup_failure save_failure key v original body digest

  -- `migrate_profile_velocity(store, model, value)`, with the first operations that the system refuses in the
  -- backup and in the save, and the number of the temporary file.
  unfoldable pub migrate_profile_velocity :
      Bool → Option ℤ → Option ℕ → Option ℕ → ℕ → Exec State Bool
  unfolding require velocity_value read_bytes migrate_document
  migrate_profile_velocity locked value backup_failure save_failure key = do
    lift (require locked runtime_error)
    lift (require device.is_f_kr_cmmt value_error)
    v ← lift (velocity_value value)
    original ← (λ (s : State). (read_bytes (snapshot device.parameter_set) s.1, s))
    migrate_document locked backup_failure save_failure key v original (json.parse original)
