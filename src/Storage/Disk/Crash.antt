-- ===== src/Storage/Disk/Crash.antt =====
-- `save` of src/functional_model/storage/parameter_store.py that stops, by a crash or a raise, after any
-- of its file operations.
use ethercat_device_simulato.Prelude.{
  ℕ, zero, suc, ◌≡◌, ◌⊎◌, inl, inr, refl, Bool, true, false, Option, some, List, [], ◌∷◌, ◌++◌,
}
use mathlib.Core.List.{append-nil, append_assoc}
use ethercat_device_simulato.Text.{Text}
use ethercat_device_simulato.Storage.Disk.{
  FileName, snapshot, temporary, file_eq, File, Disk, create, append, fsync, replace,
  sync_directory, set_entry, apply, run, install_ops, write_ops, save_ops, stop, save, save_until,
  file, stored_file, joined, below,
}
use ethercat_device_simulato.Storage.Disk.Writing.{
  Writing, create-Writing, change-Writing, replaced_visible, replaced_stored,
}

-- What the target may hold.
abbrev pub OneOf : Option File → List ℕ → Option File → Type 0
OneOf old new f = (f ≡ old) ⊎ (f ≡ some (record { content = new; synced = true }))

abbrev pub Recoverable : FileName → Option File → List ℕ → Disk → Type 0
Recoverable target old new d = OneOf old new (file target d) × OneOf old new (stored_file target d)

-- The target holds the new document, on the disk too.
abbrev pub Installed : FileName → List ℕ → Disk → Type 0
Installed target new d =
    (file target d ≡ some (record { content = new; synced = true }))
    × (stored_file target d ≡ some (record { content = new; synced = true }))

module _ (key : ℕ) (name : Text) (old : Option File) where
  same_Recoverable :
      (content new : List ℕ) (synced : Bool) (d : Disk)
      → Writing key name old content synced d
      → Recoverable (snapshot name) old new d
  same_Recoverable content new synced d w = (inl w.visible_old, inl w.stored_old)

  stop-Recoverable :
      (raised : Bool) (new : List ℕ) (d : Disk)
      → Recoverable (snapshot name) old new d
      → Recoverable (snapshot name) old new (stop raised (temporary key) d)
  unfolding stop apply set_entry file_eq file stored_file
  stop-Recoverable true new d h = h
  stop-Recoverable false new d h = h

  replaced-Recoverable :
      (c : List ℕ) (d : Disk)
      → Writing key name old c true d
      → Recoverable (snapshot name) old c (apply (replace (temporary key) (snapshot name)) d)
  replaced-Recoverable c d w =
      (inr (replaced_visible key name old c d w), inl (replaced_stored key name old c d w))

  synced-Recoverable :
      (c : List ℕ) (d : Disk)
      → Writing key name old c true d
      → Recoverable
          (snapshot name)
          old
          c
          (apply sync_directory (apply (replace (temporary key) (snapshot name)) d))
  unfolding apply file stored_file
  synced-Recoverable c d w =
      (inr (replaced_visible key name old c d w), inr (replaced_visible key name old c d w))

  install-Recoverable :
      (raised posix : Bool) (n : ℕ) (c : List ℕ) (d : Disk)
      → Writing key name old c true d
      → Recoverable (snapshot name) old c (
          save_until raised n (install_ops posix (temporary key) (snapshot name)) (temporary key) d)
  unfolding save_until install_ops
  install-Recoverable raised posix zero c d w =
      stop-Recoverable raised c d (same_Recoverable c c true d w)
  install-Recoverable raised false (suc zero) c d w =
      stop-Recoverable raised c (apply (replace (temporary key) (snapshot name)) d)
        (replaced-Recoverable c d w)
  install-Recoverable raised false (suc (suc n)) c d w =
      stop-Recoverable raised c (apply (replace (temporary key) (snapshot name)) d)
        (replaced-Recoverable c d w)
  install-Recoverable raised true (suc zero) c d w =
      stop-Recoverable raised c (apply (replace (temporary key) (snapshot name)) d)
        (replaced-Recoverable c d w)
  install-Recoverable raised true (suc (suc zero)) c d w =
      stop-Recoverable raised c
        (apply sync_directory (apply (replace (temporary key) (snapshot name)) d))
        (synced-Recoverable c d w)
  install-Recoverable raised true (suc (suc (suc n))) c d w =
      stop-Recoverable raised c
        (apply sync_directory (apply (replace (temporary key) (snapshot name)) d))
        (synced-Recoverable c d w)

  fsync-Writing :
      (c : List ℕ) (b : Bool) (d : Disk)
      → Writing key name old c b d
      → Writing key name old c true (apply (fsync (temporary key)) d)
  unfolding apply
  fsync-Writing c b d w =
      change-Writing key name old c c b true (λ f. record f { synced = true }) d w refl

  append-Writing :
      (c piece : List ℕ) (b : Bool) (d : Disk)
      → Writing key name old c b d
      → Writing key name old (c ++ piece) false (apply (append (temporary key) piece) d)
  unfolding apply
  append-Writing c piece b d w =
      change-Writing key name old c (c ++ piece) b false
        (λ f. record { content = f.content ++ piece; synced = false }) d w refl

  write-Recoverable :
      (raised posix : Bool) (n : ℕ) (pieces : List (List ℕ)) (c : List ℕ) (b : Bool) (d : Disk)
      → Writing key name old c b d
      → Recoverable (snapshot name) old (c ++ joined pieces) (
          save_until raised n
            (write_ops (temporary key) pieces (install_ops posix (temporary key) (snapshot name)))
            (temporary key)
            d)
  unfolding save_until write_ops joined
  write-Recoverable raised posix zero [] c b d w =
      stop-Recoverable raised (c ++ []) d (same_Recoverable c (c ++ []) b d w)
  write-Recoverable raised posix zero (piece ∷ pieces) c b d w =
      stop-Recoverable raised (c ++ joined (piece ∷ pieces)) d
        (same_Recoverable c (c ++ joined (piece ∷ pieces)) b d w)
  write-Recoverable raised posix (suc n) [] c b d w = rw (append-nil c) (
      install-Recoverable raised posix n c (apply (fsync (temporary key)) d)
        (fsync-Writing c b d w))
  write-Recoverable raised posix (suc n) (piece ∷ pieces) c b d w =
      rw (← append_assoc c piece (joined pieces)) (
        write-Recoverable raised posix n pieces (c ++ piece) false
          (apply (append (temporary key) piece) d) (append-Writing c piece b d w))

  save-Recoverable :
      (raised posix : Bool) (n : ℕ) (pieces : List (List ℕ)) (d : Disk)
      → below d.next (d.visible (snapshot name)) ≡ true
      → below d.next (d.stored (snapshot name)) ≡ true
      → file (snapshot name) d ≡ old
      → stored_file (snapshot name) d ≡ old
      → Recoverable (snapshot name) old (joined pieces) (
          save_until raised n
            (save_ops posix (temporary key) (snapshot name) pieces)
            (temporary key)
            d)
  unfolding save_until save_ops
  save-Recoverable raised posix zero pieces d hv hs ov os =
      stop-Recoverable raised (joined pieces) d (inl ov, inl os)
  save-Recoverable raised posix (suc n) pieces d hv hs ov os =
      write-Recoverable raised posix n pieces [] false (apply (create (temporary key)) d)
        (create-Writing key name old d hv hs ov os)

  run-write :
      (pieces : List (List ℕ)) (c : List ℕ) (b : Bool) (d : Disk)
      → Writing key name old c b d
      → Installed (snapshot name) (c ++ joined pieces) (
          run
            (write_ops (temporary key) pieces (install_ops true (temporary key) (snapshot name)))
            d)
  unfolding run write_ops joined install_ops apply file stored_file
  run-write [] c b d w =
      let w' = fsync-Writing c b d w in
      rw (append-nil c) (
        replaced_visible key name old c (apply (fsync (temporary key)) d) w',
        replaced_visible key name old c (apply (fsync (temporary key)) d) w',
      )
  run-write (piece ∷ pieces) c b d w = rw (← append_assoc c piece (joined pieces)) (
      run-write pieces (c ++ piece) false (apply (append (temporary key) piece) d)
        (append-Writing c piece b d w))

  save-Installed :
      (pieces : List (List ℕ)) (d : Disk)
      → below d.next (d.visible (snapshot name)) ≡ true
      → below d.next (d.stored (snapshot name)) ≡ true
      → file (snapshot name) d ≡ old
      → stored_file (snapshot name) d ≡ old
      → Installed
          (snapshot name)
          (joined pieces)
          (save true (temporary key) (snapshot name) pieces d)
  unfolding save save_ops run apply file stored_file set_entry file_eq
  save-Installed pieces d hv hs ov os =
      run-write pieces [] false (apply (create (temporary key)) d)
        (create-Writing key name old d hv hs ov os)

  -- A save begins where the entries of the target name files that exist and the target is the same on the
  -- disk. Where it raises or is lost in a crash, after any of its operations, the target is the old file or
  -- the whole new document, synced, for the running system and on the disk; where it returns on POSIX, it is
  -- the new document for both.
  pub save-durable :
      (raised posix : Bool) (n : ℕ) (pieces : List (List ℕ)) (d : Disk)
      → below d.next (d.visible (snapshot name)) ≡ true
      → below d.next (d.stored (snapshot name)) ≡ true
      → file (snapshot name) d ≡ old
      → stored_file (snapshot name) d ≡ old
      → Recoverable (snapshot name) old (joined pieces) (
          save_until raised n
            (save_ops posix (temporary key) (snapshot name) pieces)
            (temporary key)
            d)
        × Installed
            (snapshot name)
            (joined pieces)
            (save true (temporary key) (snapshot name) pieces d)
  save-durable raised posix n pieces d hv hs ov os =
      (save-Recoverable raised posix n pieces d hv hs ov os, save-Installed pieces d hv hs ov os)
