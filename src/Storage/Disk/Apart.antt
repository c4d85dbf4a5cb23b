-- ===== src/Storage/Disk/Apart.antt =====
-- What a save of src/functional_model/storage/parameter_store.py, or the writing of one new file, does to
-- another file.
use ethercat_device_simulato.Prelude.{
  ℕ, zero, suc, ◌+◌, ◌≡◌, refl, ◌∙◌, arith, Bool, true, false, Option, none, some, List, [], ◌∷◌,
  ◌++◌,
}
use ethercat_device_simulato.Text.{Text}
use ethercat_device_simulato.Storage.Disk.{
  FileName, snapshot, temporary, file_eq, File, Disk, create, append, fsync, replace,
  sync_directory, set_entry, change_file, apply, run, install_ops, write_ops, save_ops, stop, save,
  save_until, file, below,
}
use ethercat_device_simulato.Storage.Disk.Writing.{elsewhere, kept_file, below-elsewhere}

below-suc : (n : ℕ) (o : Option ℕ) → below n o ≡ true → below (n + 1) o ≡ true
unfolding below
below-suc n none h = refl
below-suc n (some i) h = ground arith

module _ (t m : FileName) (e : Option File) where
  -- The file of `t` is not that of `m`, which holds `e`.
  pub record Apart (d : Disk) : Type 0 where
    pub number : ℕ
    pub own_entry : d.visible t ≡ some number
    pub other : elsewhere number (d.visible m) ≡ true
    pub kept : file m d ≡ e
    pub bounded : below d.next (d.visible m) ≡ true

  pub create-Apart :
      (d : Disk)
      → file_eq t t ≡ true
      → file_eq t m ≡ false
      → below d.next (d.visible m) ≡ true
      → file m d ≡ e
      → Apart (apply (create t) d)
  unfolding apply set_entry file
  create-Apart d same differs b f =
      let apart = below-elsewhere d.next (d.visible m) b in
      let empty : File = record { content = []; synced = false } in
      record {
        number = d.next;
        own_entry = rw (same) refl;
        other = rw (differs) apart;
        kept =
            rw (differs)
              (kept_file d.next (d.visible m) empty d (apply (create t) d) refl apart ∙ f);
        bounded = rw (differs) (below-suc d.next (d.visible m) b);
      }

  change-Apart : (g : File → File) (d : Disk) → Apart d → Apart (change_file (d.visible t) g d)
  unfolding change_file file
  change-Apart g d a = rw (a.own_entry) (record {
    number = a.number;
    own_entry = a.own_entry;
    other = a.other;
    kept =
        kept_file a.number (d.visible m) (g (d.files a.number)) d (change_file (some a.number) g d)
          refl a.other
        ∙ a.kept;
    bounded = a.bounded;
  })

  pub append-Apart : (bytes : List ℕ) (d : Disk) → Apart d → Apart (apply (append t bytes) d)
  unfolding apply
  append-Apart bytes d a =
      change-Apart (λ f. record { content = f.content ++ bytes; synced = false }) d a

  pub fsync-Apart : (d : Disk) → Apart d → Apart (apply (fsync t) d)
  unfolding apply
  fsync-Apart d a = change-Apart (λ f. record f { synced = true }) d a

own_name : (key : ℕ) → file_eq (temporary key) (temporary key) ≡ true
unfolding file_eq
own_name key = ground arith

-- The directory names a file that exists for `m`, or none, and the file is `e`.
abbrev pub Holds : FileName → Option File → Disk → Type 0
Holds m e d = (file m d ≡ e) × (below d.next (d.visible m) ≡ true)

-- A save of the snapshot `s` and another file `m`.
module _ (key : ℕ) (s : Text) (m : FileName) (e : Option File)
    (not_temporary : file_eq (temporary key) m ≡ false)
    (not_target : file_eq (snapshot s) m ≡ false) where
  abbrev Kept : Disk → Type 0
  Kept = Holds m e

  stop-Kept : (raised : Bool) (d : Disk) → Kept d → Kept (stop raised (temporary key) d)
  unfolding stop apply set_entry file
  stop-Kept true d h = rw (not_temporary) h
  stop-Kept false d h = h

  replace-Kept : (d : Disk) → Kept d → Kept (apply (replace (temporary key) (snapshot s)) d)
  unfolding apply set_entry file
  replace-Kept d h = rw (not_temporary, not_target) h

  sync-Kept : (d : Disk) → Kept d → Kept (apply sync_directory d)
  unfolding apply file
  sync-Kept d h = h

  install-Kept :
      (raised posix : Bool) (n : ℕ) (d : Disk)
      → Kept d
      → Kept
          (save_until raised n (install_ops posix (temporary key) (snapshot s)) (temporary key) d)
  unfolding save_until install_ops
  install-Kept raised posix zero d h = stop-Kept raised d h
  install-Kept raised false (suc zero) d h = stop-Kept raised _ (replace-Kept d h)
  install-Kept raised false (suc (suc n)) d h = stop-Kept raised _ (replace-Kept d h)
  install-Kept raised true (suc zero) d h = stop-Kept raised _ (replace-Kept d h)
  install-Kept raised true (suc (suc zero)) d h =
      stop-Kept raised _ (sync-Kept _ (replace-Kept d h))
  install-Kept raised true (suc (suc (suc n))) d h =
      stop-Kept raised _ (sync-Kept _ (replace-Kept d h))

  Apart-Kept : (d : Disk) → Apart (temporary key) m e d → Kept d
  Apart-Kept d a = (a.kept, a.bounded)

  write-Kept :
      (raised posix : Bool) (n : ℕ) (pieces : List (List ℕ)) (d : Disk)
      → Apart (temporary key) m e d
      → Kept (
          save_until raised n
            (write_ops (temporary key) pieces (install_ops posix (temporary key) (snapshot s)))
            (temporary key)
            d)
  unfolding save_until write_ops
  write-Kept raised posix zero [] d a = stop-Kept raised d (a.kept, a.bounded)
  write-Kept raised posix zero (piece ∷ pieces) d a = stop-Kept raised d (a.kept, a.bounded)
  write-Kept raised posix (suc n) [] d a =
      install-Kept raised posix n _ (Apart-Kept _ (fsync-Apart (temporary key) m e d a))
  write-Kept raised posix (suc n) (piece ∷ pieces) d a =
      write-Kept raised posix n pieces _ (append-Apart (temporary key) m e piece d a)

  pub save_until-Kept :
      (raised posix : Bool) (n : ℕ) (pieces : List (List ℕ)) (d : Disk)
      → Kept d
      → Kept (
          save_until raised n
            (save_ops posix (temporary key) (snapshot s) pieces)
            (temporary key)
            d)
  unfolding save_until save_ops
  save_until-Kept raised posix zero pieces d h = stop-Kept raised d h
  save_until-Kept raised posix (suc n) pieces d h =
      write-Kept raised posix n pieces _
        (create-Apart (temporary key) m e d (own_name key) not_temporary h.1 h.0)

  run-Kept :
      (pieces : List (List ℕ)) (d : Disk)
      → Apart (temporary key) m e d
      → Kept
          (run (write_ops (temporary key) pieces (install_ops true (temporary key) (snapshot s))) d)
  unfolding run write_ops install_ops
  run-Kept [] d a =
      sync-Kept _ (replace-Kept _ (Apart-Kept _ (fsync-Apart (temporary key) m e d a)))
  run-Kept (piece ∷ pieces) d a = run-Kept pieces _ (append-Apart (temporary key) m e piece d a)

  pub save-Kept :
      (pieces : List (List ℕ)) (d : Disk)
      → Kept d
      → Kept (save true (temporary key) (snapshot s) pieces d)
  unfolding save save_ops run stop
  save-Kept pieces d h = stop-Kept true _ (
      run-Kept pieces (apply (create (temporary key)) d)
        (create-Apart (temporary key) m e d (own_name key) not_temporary h.1 h.0))
