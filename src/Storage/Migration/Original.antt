-- ===== src/Storage/Migration/Original.antt =====
-- Where the original document of a migration in src/functional_model/storage/migrate.py is at its end.
use ethercat_device_simulato.Prelude.{
  ℕ, ◌≡◌, inl, inr, sym, ap, subst, ℤ, Bool, true, false, Option, some, List,
}
use ethercat_device_simulato.Exec.{
  value_error, runtime_error, Result, ok, err, Exec, go_on, if-holds, Ensures, bind-Ensures,
  bind_after-Ensures, pure, lift, on_part, ◌>>=◌, ◌>>◌,
}
use ethercat_device_simulato.Text.{Text}
use ethercat_device_simulato.Codec.{Floats}
use ethercat_device_simulato.Od.{OdModel}
use ethercat_device_simulato.Storage.Disk.{
  content_of, FileName, snapshot, backup, File, Disk, file, below,
}
use ethercat_device_simulato.Storage.Snapshot.{
  is_schema, Data, Parsed, invalid, document, Json, Device, require, load, save, prepared,
}
use ethercat_device_simulato.Storage.Migration.{
  keep_backup, upgrade, migrate_document, migrate_profile_velocity, velocity_value, bytes_of,
  read_bytes,
}
use ethercat_device_simulato.Storage.Migration.Backup.{
  Preserved, Before, Backed, Outcome, keep_backup-Outcome, write_out-Preserved,
}

module _ {F : Type 0} (floats : Floats F) (json : Json F) (dumps : Data → Text → List ℕ)
    (device : Device F) (original : List ℕ) where
  abbrev set : Text
  set = device.parameter_set

  abbrev Fine : OdModel F × Disk → Type 0
  Fine s = Before set original s.1

  abbrev Safe : OdModel F × Disk → Type 0
  Safe s = Preserved set original s.1

  Fine-Safe : (s : OdModel F × Disk) → Fine s → Safe s
  Fine-Safe s b = inl b.holds

  save-Preserved :
      (locked : Bool) (failure : Option ℕ) (key : ℕ) (od : OdModel F) (d : Disk)
      → Backed set original d
      → Preserved set original (save floats json locked failure key device od d).1
  unfolding save
  save-Preserved locked failure key od d b =
      bind-Ensures {P = Backed set original} {Q = Preserved set original}
        (lift (prepared floats json locked device od)) _ (λ d h. h)
        (λ pieces d h. write_out-Preserved set original floats json failure key pieces d h)
        (λ d h. inr h.holds) d b

  abbrev save_step : Bool → Option ℕ → ℕ → Exec (OdModel F × Disk) (Unit {0})
  save_step locked failure key s =
      on_part (λ (s : OdModel F × Disk). s.1) (λ disk s. (s.0, disk))
        (save floats json locked failure key device s.0) s

  saved-Safe :
      (locked : Bool) (failure : Option ℕ) (key : ℕ) (r : Result (Unit {0})) (od : OdModel F)
      (d : Disk)
      → Outcome set original (r, d)
      → Safe (go_on r (λ _. do save_step locked failure key; pure true) (od, d)).1
  saved-Safe locked failure key (ok u) od d h =
      bind_after-Ensures {P = λ s. Backed set original s.1} {Q = Safe}
        (save_step locked failure key) (λ _. pure true)
        (λ s h. save-Preserved locked failure key s.0 s.1 h) (λ _ s h. h) (od, d) h
  saved-Safe locked failure key (err e) od d h = h

  backed-Safe :
      (locked : Bool) (backup_failure save_failure : Option ℕ) (key : ℕ)
      → Ensures Fine
          (do
            on_part
                (λ (s : OdModel F × Disk). s.1)
                (λ disk s. (s.0, disk))
                (keep_backup backup_failure set original)
            save_step locked save_failure key
            pure true)
          Safe
  unfolding ◌>>=◌
  backed-Safe locked backup_failure save_failure key s b =
      let r = keep_backup backup_failure set original s.1 in
      saved-Safe locked save_failure key r.0 s.0 r.1
        (keep_backup-Outcome set original backup_failure s.1 b)

  upgrade-Safe :
      (locked : Bool) (backup_failure save_failure : Option ℕ) (key v : ℕ) (body : Data)
      (digest : Option Text)
      → Ensures Fine
          (upgrade floats json dumps device locked backup_failure save_failure key v original body
            digest)
          Safe
  unfolding upgrade
  upgrade-Safe locked backup_failure save_failure key v body digest =
      bind-Ensures {P = Fine} {Q = Safe} _ _ (λ s h. h)
        (λ new.
          bind-Ensures {P = Fine} {Q = Safe} _ _ (λ s h. h)
            (λ _. backed-Safe locked backup_failure save_failure key) Fine-Safe)
        Fine-Safe

  document-Safe :
      (locked : Bool) (backup_failure save_failure : Option ℕ) (key v : ℕ) (p : Parsed)
      → Ensures Fine
          (migrate_document floats json dumps device locked backup_failure save_failure key v
            original p)
          Safe
  unfolding migrate_document ◌>>=◌
  document-Safe locked backup_failure save_failure key v (invalid e) s b = Fine-Safe s b
  document-Safe locked backup_failure save_failure key v (document body digest) s b =
      if-holds (λ (m : Exec (OdModel F × Disk) Bool). Safe (m s).1)
        (is_schema body.schema_version 2) _ _
        (bind-Ensures {P = Fine} {Q = Safe}
          (on_part (λ (s : OdModel F × Disk). s.0) (λ od s. (od, s.1))
            (load floats json device (some original)))
          (λ _. pure false) (λ s h. h) (λ _ s h. Fine-Safe s h) Fine-Safe s b)
        (upgrade-Safe locked backup_failure save_failure key v body digest s b)

module _ {F : Type 0} (floats : Floats F) (json : Json F) (dumps : Data → Text → List ℕ)
    (device : Device F) where
  abbrev Whole : File → OdModel F × Disk → Type 0
  Whole f s =
      (file (snapshot device.parameter_set) s.1 ≡ some f)
      × (below s.1.next (s.1.visible (snapshot device.parameter_set)) ≡ true)
      × (below s.1.next (s.1.visible (backup device.parameter_set)) ≡ true)

  read_bytes-some :
      (name : FileName) (f : File) (d : Disk)
      → file name d ≡ some f
      → read_bytes name d ≡ ok f.content
  unfolding read_bytes
  read_bytes-some name f d h = ap bytes_of h

  Whole-Before :
      (f : File) (s : OdModel F × Disk) → Whole f s → Before device.parameter_set f.content s.1
  Whole-Before f s w = record {
    holds = ap content_of w.0;
    snapshot_below = w.1;
    backup_below = w.2;
  }

  Whole-Safe :
      (f : File) (s : OdModel F × Disk) → Whole f s → Preserved device.parameter_set f.content s.1
  Whole-Safe f s w = inl (ap content_of w.0)

  read_document-Safe :
      (locked : Bool) (backup_failure save_failure : Option ℕ) (key v : ℕ) (f : File)
      → Ensures
          (Whole f)
          (do
            original ←
                (λ (s : OdModel F × Disk). (read_bytes (snapshot device.parameter_set) s.1, s))
            migrate_document floats json dumps device locked backup_failure save_failure key v
                original
                (json.parse original))
          (λ s. Preserved device.parameter_set f.content s.1)
  unfolding ◌>>=◌
  read_document-Safe locked backup_failure save_failure key v f s w =
      subst
        (λ (r : Result (List ℕ)).
          Preserved device.parameter_set f.content
            (go_on r
              (λ original.
                migrate_document floats json dumps device locked backup_failure save_failure key v
                  original (json.parse original))
              s).1.1)
        (sym (read_bytes-some (snapshot device.parameter_set) f s.1 w.0))
        (document-Safe floats json dumps device f.content locked backup_failure save_failure key v
          (json.parse f.content) s (Whole-Before f s w))

  -- Whether the migration returns or raises, and whichever operations of the backup and of the save the system
  -- refuses, the bytes of the old snapshot are in the snapshot or in its backup. It begins where the
  -- snapshot is a file, and its entry and the backup's, if there is one, name files that exist.
  pub migrate-preserves :
      (locked : Bool) (value : Option ℤ) (backup_failure save_failure : Option ℕ) (key : ℕ)
      (od : OdModel F) (disk : Disk) (f : File)
      → file (snapshot device.parameter_set) disk ≡ some f
      → below disk.next (disk.visible (snapshot device.parameter_set)) ≡ true
      → below disk.next (disk.visible (backup device.parameter_set)) ≡ true
      → Preserved device.parameter_set f.content
          (migrate_profile_velocity floats json dumps device locked value backup_failure
            save_failure key
            (od, disk)).1.1
  unfolding migrate_profile_velocity
  migrate-preserves locked value backup_failure save_failure key od disk f hf hs hb =
      let P : OdModel F × Disk → Type 0 = Whole f in
      let Q : OdModel F × Disk → Type 0 = λ s. Preserved device.parameter_set f.content s.1 in
      bind-Ensures {P = P} {Q = Q} (lift (require locked runtime_error)) _ (λ s h. h)
        (λ _.
          bind-Ensures {P = P} {Q = Q} (lift (require device.is_f_kr_cmmt value_error)) _ (λ s h. h)
            (λ _.
              bind-Ensures {P = P} {Q = Q} (lift (velocity_value value)) _ (λ s h. h)
                (λ v. read_document-Safe locked backup_failure save_failure key v f) (Whole-Safe f))
            (Whole-Safe f))
        (Whole-Safe f) (od, disk) (hf, hs, hb)
