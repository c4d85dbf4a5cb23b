-- ===== src/Storage/Migration/Backup.antt =====
-- The original document of a migration in src/functional_model/storage/migrate.py.
use ethercat_device_simulato.Prelude.{
  ℕ, zero, suc, ◌<◌, ◌≡◌, ◌⊎◌, inl, inr, refl, ap, ◌∙◌, arith, true, false, ltb, ltb→lt, Bool-cases,
  Option, none, some, List, [], ◌∷◌, ◌++◌, take, length,
}
use ethercat_device_simulato.Exec.{Result, ok, err, if-holds}
use ethercat_device_simulato.Text.{Text, text_eq}
use ethercat_device_simulato.Codec.{Floats}
use ethercat_device_simulato.Storage.Disk.{
  save, content_of, snapshot, backup, temporary, file_eq, File, Disk, create, append, apply, run,
  file, entry_file, below, set_entry, change_file, save_ops,
}
use ethercat_device_simulato.Storage.Disk.Writing.{text_eq_refl, set_file-same}
use ethercat_device_simulato.Storage.Disk.Apart.{
  Apart, create-Apart, append-Apart, save_until-Kept, save-Kept,
}
use ethercat_device_simulato.Storage.Snapshot.{Json, write_out}
use ethercat_device_simulato.Storage.Migration.{backup_ops, write_backup, check_backup, keep_backup}

text_eq_sound : (a b : Text) → text_eq a b ≡ true → a ≡ b
unfolding text_eq
text_eq_sound [] [] h = refl
text_eq_sound [] (y ∷ ys) h = ground arith
text_eq_sound (x ∷ xs) [] h = ground arith
text_eq_sound (x ∷ xs) (y ∷ ys) h = ground (arith, text_eq_sound xs ys)

-- The snapshot still holds the document, or its backup does.
abbrev pub Preserved : Text → List ℕ → Disk → Type 0
Preserved set original d =
    (content_of (file (snapshot set) d) ≡ some original)
    ⊎ (content_of (file (backup set) d) ≡ some original)

module _ (set : Text) (original : List ℕ) where
  -- The snapshot holds the document, and its entry and the backup's name files that exist.
  pub record Before (d : Disk) : Type 0 where
    pub holds : content_of (file (snapshot set) d) ≡ some original
    pub snapshot_below : below d.next (d.visible (snapshot set)) ≡ true
    pub backup_below : below d.next (d.visible (backup set)) ≡ true

  pub record Backed (d : Disk) : Type 0 where
    pub holds : content_of (file (backup set) d) ≡ some original
    pub backup_below : below d.next (d.visible (backup set)) ≡ true

  abbrev pub Outcome : Result (Unit {0}) × Disk → Type 0
  Outcome r = elim (r.0) [ ok u ↦ Backed r.1 | err e ↦ Preserved set original r.1 ]

  create_backup :
      (d : Disk)
      → Before d
      → Apart (backup set) (snapshot set) (file (snapshot set) d) (apply (create (backup set)) d)
  unfolding file_eq
  create_backup d b =
      create-Apart (backup set) (snapshot set) (file (snapshot set) d) d (text_eq_refl set) refl
        b.snapshot_below refl

  kept_original :
      (d d' : Disk)
      → Before d
      → file (snapshot set) d' ≡ file (snapshot set) d
      → Preserved set original d'
  kept_original d d' b same = inl (ap content_of same ∙ b.holds)

  -- The backup while it is written.
  record Holding (content : List ℕ) (d : Disk) : Type 0 where
    number : ℕ
    entry : d.visible (backup set) ≡ some number
    holds : (d.files number).content ≡ content
    is_below : below d.next (some number) ≡ true

  create-Holding : (d : Disk) → Holding [] (apply (create (backup set)) d)
  unfolding apply set_entry file_eq below
  create-Holding d = record {
    number = d.next;
    entry = rw (text_eq_refl set) refl;
    holds =
        ap (λ (f : File). f.content)
          (set_file-same d.next (record { content = []; synced = false }) d.files);
    is_below = ground arith;
  }

  change-Holding :
      (g : File → File) (c c' : List ℕ) (d : Disk)
      → Holding c d
      → ((f : File) → f.content ≡ c → (g f).content ≡ c')
      → Holding c' (change_file (d.visible (backup set)) g d)
  unfolding change_file
  change-Holding g c c' d w h = rw (w.entry) (record {
    number = w.number;
    entry = w.entry;
    holds =
        ap (λ (f : File). f.content) (set_file-same w.number (g (d.files w.number)) d.files)
        ∙ h (d.files w.number) w.holds;
    is_below = w.is_below;
  })

  Holding-Backed : (d : Disk) → Holding original d → Backed d
  unfolding file entry_file
  Holding-Backed d w = record {
    holds = rw (w.entry) (ap some w.holds);
    backup_below = rw (w.entry) w.is_below;
  }

  -- The backup once it is written.
  written_backup : (d : Disk) → Backed (run (backup_ops (backup set) original) d)
  unfolding backup_ops run apply
  written_backup d =
      let created = apply (create (backup set)) d in
      let appended = apply (append (backup set) original) created in
      Holding-Backed _ (
        change-Holding (λ f. record f { synced = true }) original original appended
          (change-Holding (λ f. record { content = f.content ++ original; synced = false }) []
            original created (create-Holding d) (λ f h. ap (λ (xs : List ℕ). xs ++ original) h))
          (λ f h. h))

  refused_backup :
      (n : ℕ) (d : Disk)
      → n < 3
      → Before d
      → Preserved set original (run (take n (backup_ops (backup set) original)) d)
  unfolding backup_ops run
  refused_backup zero d h b = inl b.holds
  refused_backup (suc zero) d h b = kept_original d _ b (create_backup d b).kept
  refused_backup (suc (suc zero)) d h b =
      kept_original d _ b
        (append-Apart (backup set) (snapshot set) (file (snapshot set) d) original
          (apply (create (backup set)) d) (create_backup d b)).kept
  refused_backup (suc (suc (suc n))) d h b = ground (arith, h)

  write_backup-Outcome :
      (failure : Option ℕ) (d : Disk)
      → Before d
      → Outcome (write_backup failure (backup set) original d)
  unfolding write_backup
  write_backup-Outcome none d b = written_backup d
  write_backup-Outcome (some n) d b = elim (Bool-cases (ltb n 3)) [
    | inl early ↦ rw (early) (refused_backup n d (ltb→lt n 3 early) b)
    | inr late ↦ rw (late) (written_backup d)
  ]

  check_backup-Outcome :
      (found : Option File) (failure : Option ℕ) (d : Disk)
      → Before d
      → file (backup set) d ≡ found
      → Outcome (check_backup found failure (backup set) original d)
  unfolding check_backup
  check_backup-Outcome none failure d b h = write_backup-Outcome failure d b
  check_backup-Outcome (some f) failure d b h = elim (Bool-cases (text_eq f.content original)) [
    | inl same ↦ rw (same) (record {
      holds = ap content_of h ∙ ap some (text_eq_sound f.content original same);
      backup_below = b.backup_below;
    })
    | inr differs ↦ rw (differs) (inl b.holds)
  ]

  pub keep_backup-Outcome :
      (failure : Option ℕ) (d : Disk) → Before d → Outcome (keep_backup failure set original d)
  unfolding keep_backup
  keep_backup-Outcome failure d b = check_backup-Outcome (file (backup set) d) failure d b refl

  save_kept :
      (key : ℕ) (pieces : List (List ℕ)) (d : Disk)
      → Backed d
      → file (backup set) (save true (temporary key) (snapshot set) pieces d) ≡ file (backup set) d
  unfolding file_eq
  save_kept key pieces d b =
      (save-Kept key set (backup set) (file (backup set) d) refl refl pieces d
        (refl, b.backup_below)).0

  -- A save after the backup.
  pub write_out-Preserved :
      {F : Type 0} (floats : Floats F) (json : Json F) (failure : Option ℕ) (key : ℕ)
      (pieces : List (List ℕ)) (d : Disk)
      → Backed d
      → Preserved set original (write_out floats json failure key set pieces d).1
  unfolding write_out
  write_out-Preserved floats json none key pieces d b =
      inr (ap content_of (save_kept key pieces d b) ∙ b.holds)
  write_out-Preserved floats json (some n) key pieces d b =
      if-holds (λ (r : Result (Unit {0}) × Disk). Preserved set original r.1)
        (ltb n (length (save_ops true (temporary key) (snapshot set) pieces))) _ _
        (inr (
          ap content_of (
            (save_until-Kept key set (backup set) (file (backup set) d) (unfold file_eq in refl)
              (unfold file_eq in refl) true true n pieces d (refl, b.backup_below)).0)
          ∙ b.holds))
        (inr (ap content_of (save_kept key pieces d b) ∙ b.holds))
