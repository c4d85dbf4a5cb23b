-- ===== src/Storage/Startup/Present.antt =====
-- The snapshots after the start of the fleet in src/functional_model/runtime/fleet.py.
use ethercat_device_simulato.Prelude.{
  ℕ, ◌+◌, ◌≡◌, refl, sym, ap, ◌∙◌, arith, Bool, true, false, ◌&&◌, ◌||◌, Option, none, some, List,
  [], ◌∷◌, ◌++◌, if◌then◌else◌,
}
use ethercat_device_simulato.Exec.{Result, ok, err, then_do, go_on, pure, ◌>>=◌, ◌>>◌}
use ethercat_device_simulato.Text.{Text, text_eq}
use ethercat_device_simulato.Codec.{Floats}
use ethercat_device_simulato.Od.{OdModel}
use ethercat_device_simulato.Storage.Disk.{
  FileName, snapshot, temporary, file_eq, File, Disk, create, set_entry, change_file, apply, run,
  install_ops, write_ops, save_ops, save as save_file, content_at, file, entry_file, content_of,
}
use ethercat_device_simulato.Storage.Disk.Writing.{text_eq_refl}
use ethercat_device_simulato.Storage.Snapshot.{Json, Device, load, prepared, write_out, save}
use ethercat_device_simulato.Storage.Startup.{load_model, load_all, save_all, start_fleet}

abbrev pub is_ok : {A : Type 0} → Result A → Bool
is_ok (ok a) = true
is_ok (err e) = false

unfoldable pub has_some : {A : Type 0} → Option A → Bool
has_some none = false
has_some (some a) = true

-- The directory has an entry for the snapshot `m`.
unfoldable pub is_present : Text → Disk → Bool
unfolding has_some
is_present m d = has_some (d.visible (snapshot m))

change_file-visible :
    (e : Option ℕ) (g : File → File) (d : Disk) (n : FileName)
    → (change_file e g d).visible n ≡ d.visible n
unfolding change_file
change_file-visible none g d n = refl
change_file-visible (some i) g d n = refl

module _ (key : ℕ) (s m : Text) where
  installed-present :
      (d : Disk)
      → has_some (d.visible (temporary key)) ≡ true
      → is_present m (run (install_ops true (temporary key) (snapshot s)) d)
        ≡ (text_eq s m || is_present m d)
  unfolding is_present has_some run install_ops apply set_entry file_eq
  installed-present d h = ground arith

  written-present :
      (pieces : List (List ℕ)) (d : Disk)
      → has_some (d.visible (temporary key)) ≡ true
      → is_present m
          (run (write_ops (temporary key) pieces (install_ops true (temporary key) (snapshot s))) d)
        ≡ (text_eq s m || is_present m d)
  unfolding run write_ops apply is_present
  written-present [] d h =
      let e = d.visible (temporary key) in
      let g : File → File = λ f. record f { synced = true } in
      installed-present (change_file e g d)
        (ap has_some (change_file-visible e g d (temporary key)) ∙ h)
      ∙ ap (λ n. text_eq s m || has_some n) (change_file-visible e g d (snapshot m))
  written-present (piece ∷ pieces) d h =
      let e = d.visible (temporary key) in
      let g : File → File = λ f. record { content = f.content ++ piece; synced = false } in
      written-present pieces (change_file e g d)
        (ap has_some (change_file-visible e g d (temporary key)) ∙ h)
      ∙ ap (λ n. text_eq s m || has_some n) (change_file-visible e g d (snapshot m))

  saved-present :
      (pieces : List (List ℕ)) (d : Disk)
      → is_present m (save_file true (temporary key) (snapshot s) pieces d)
        ≡ (text_eq s m || is_present m d)
  unfolding save_file save_ops run apply set_entry file_eq is_present has_some
  saved-present pieces d = written-present pieces (apply (create (temporary key)) d) (ground arith)

module _ {F : Type 0} (floats : Floats F) (json : Json F) (m : Text) where
  write_out-present :
      (failure : Option ℕ) (key : ℕ) (s : Text) (pieces : List (List ℕ)) (d : Disk)
      → is_ok (write_out floats json failure key s pieces d).0 ≡ true
      → is_present m (write_out floats json failure key s pieces d).1
        ≡ (text_eq s m || is_present m d)
  unfolding write_out
  write_out-present none key s pieces d h = saved-present key s m pieces d
  write_out-present (some n) key s pieces d h = ground (arith, saved-present key s m pieces d)

  prepared-present :
      (failure : Option ℕ) (key : ℕ) (s : Text) (r : Result (List (List ℕ))) (d : Disk)
      → is_ok (go_on r (write_out floats json failure key s) d).0 ≡ true
      → is_present m (go_on r (write_out floats json failure key s) d).1
        ≡ (text_eq s m || is_present m d)
  prepared-present failure key s (ok pieces) d h = write_out-present failure key s pieces d h
  prepared-present failure key s (err e) d h = ground arith

  save-present :
      (locked : Bool) (failure : Option ℕ) (key : ℕ) (device : Device F) (od : OdModel F) (d : Disk)
      → is_ok (save floats json locked failure key device od d).0 ≡ true
      → is_present m (save floats json locked failure key device od d).1
        ≡ (text_eq device.parameter_set m || is_present m d)
  unfolding save ◌>>=◌
  save-present locked failure key device od d =
      prepared-present failure key device.parameter_set (prepared floats json locked device od) d

-- One of the models has the snapshot `m`.
unfoldable pub is_among : {F : Type 0} → Text → List (Device F × OdModel F) → Bool
is_among m [] = false
is_among m ((device, od) ∷ ms) = text_eq device.parameter_set m || is_among m ms

unfoldable pub all_present : {F : Type 0} → List (Device F × OdModel F) → Disk → Bool
unfolding is_present
all_present [] d = true
all_present ((device, od) ∷ ms) d = is_present device.parameter_set d && all_present ms d

-- Every model has a snapshot, or is among the missing.
all_known : {F : Type 0} → List (Device F × OdModel F) → List (Device F × OdModel F) → Disk → Bool
unfolding is_present is_among
all_known [] missing d = true
all_known ((device, od) ∷ ms) missing d =
    (is_among device.parameter_set missing || is_present device.parameter_set d)
    && all_known ms missing d

-- What the first loop promises to the second.
Known :
    {F : Type 0}
    → List (Device F × OdModel F)
    → Disk
    → Result (List (Device F × OdModel F) × List (Device F × OdModel F))
    → Type 0
Known models d (ok p) = all_known models p.1 d ≡ true
Known models d (err e) = Unit {0}

module _ {F : Type 0} (floats : Floats F) (json : Json F) where
  save_all-present :
      (m : Text) (locked : Bool) (failures : ℕ → Option ℕ) (key : ℕ)
      (ms : List (Device F × OdModel F)) (d : Disk)
      → is_ok (save_all floats json locked failures key ms d).0 ≡ true
      → is_present m (save_all floats json locked failures key ms d).1
        ≡ (is_among m ms || is_present m d)
  unfolding save_all ◌>>=◌ is_among
  save_all-present m locked failures key [] d h = refl
  save_all-present m locked failures key ((device, od) ∷ ms) d h =
      let d' = (save floats json locked (failures key) key device od d).1 in
      ground (
        arith,
        save-present floats json m locked (failures key) key device od d,
        save_all-present m locked failures (key + 1) ms d',
      )

  content-present : (m : Text) (d : Disk) → has_some (content_at (snapshot m) d) ≡ is_present m d
  unfolding content_at file entry_file is_present has_some
  content-present m d =
      elim (d.visible (snapshot m)) as (λ e. has_some (content_of (entry_file d e)) ≡ has_some e) [
        | none ↦ refl
        | some i ↦ refl
      ]

  found_content :
      (device : Device F) (content : Option (List ℕ)) (od : OdModel F)
      → (load floats json device content od).0 ≡ ok true
      → has_some content ≡ true
  unfolding load has_some
  found_content device none od h = ground arith
  found_content device (some c) od h = refl

  known-more :
      (models missing : List (Device F × OdModel F)) (x : Device F × OdModel F) (d : Disk)
      → all_known models missing d ≡ true
      → all_known models (x ∷ missing) d ≡ true
  unfolding all_known is_among
  known-more [] missing x d h = refl
  known-more ((device, od) ∷ ms) missing (device', od') d h =
      ground (arith, known-more ms missing (device', od') d)

  known-saved :
      (locked : Bool) (failures : ℕ → Option ℕ) (key : ℕ)
      (models missing : List (Device F × OdModel F)) (d : Disk)
      → is_ok (save_all floats json locked failures key missing d).0 ≡ true
      → all_known models missing d ≡ true
      → all_present models (save_all floats json locked failures key missing d).1 ≡ true
  unfolding all_known all_present
  known-saved locked failures key [] missing d h k = refl
  known-saved locked failures key ((device, od) ∷ ms) missing d h k = ground (
    arith,
    save_all-present device.parameter_set locked failures key missing d,
    known-saved locked failures key ms missing d,
  )

  step-Known :
      (device : Device F) (od od' : OdModel F) (ms : List (Device F × OdModel F)) (d : Disk)
      (r : Result Bool)
      → (r ≡ ok true → is_present device.parameter_set d ≡ true)
      → (q : Result (List (Device F × OdModel F) × List (Device F × OdModel F))) → Known ms d q
      → Known ((device, od) ∷ ms) d (
          then_do {A = (Device F × OdModel F) × Bool}
            (then_do r (λ found. ok ((device, od'), found)))
            (λ loaded.
              then_do q
                (λ rest. ok (loaded.0 ∷ rest.0, (if loaded.1 then rest.1 else loaded.0 ∷ rest.1)))))
  unfolding Known all_known is_among
  step-Known device od od' ms d (err e) f q k = tt
  step-Known device od od' ms d (ok found) f (err e) k = tt
  step-Known device od od' ms d (ok true) f (ok rest) k = ground (arith, f refl, k)
  step-Known device od od' ms d (ok false) f (ok rest) k =
      ground (arith, text_eq_refl device.parameter_set, known-more ms rest.1 (device, od') d k)

  loaded-Known :
      (models : List (Device F × OdModel F)) (d : Disk)
      → Known models d (load_all floats json models d)
  unfolding load_all load_model Known all_known
  loaded-Known [] d = refl
  loaded-Known ((device, od) ∷ ms) d =
      let content = content_at (snapshot device.parameter_set) d in
      let r = load floats json device content od in
      step-Known device od r.1 ms d r.0
        (λ h. sym (content-present device.parameter_set d) ∙ found_content device content od h)
        (load_all floats json ms d) (loaded-Known ms d)

  started-present :
      (locked : Bool) (failures : ℕ → Option ℕ) (key : ℕ) (models : List (Device F × OdModel F))
      (d : Disk) (r : Result (List (Device F × OdModel F) × List (Device F × OdModel F)))
      → Known models d r
      → is_ok
          (go_on r
            (λ loaded. do save_all floats json locked failures key loaded.1; pure loaded.0)
            d).0
        ≡ true
      → all_present models
          (go_on r
            (λ loaded. do save_all floats json locked failures key loaded.1; pure loaded.0)
            d).1
        ≡ true
  unfolding Known ◌>>=◌
  started-present locked failures key models d (ok p) k h =
      ground (arith, known-saved locked failures key models p.1 d, k)
  started-present locked failures key models d (err e) k h = ground arith

  -- When the fleet has started, the storage directory has a snapshot of every model.
  pub start_fleet-present :
      (locked : Bool) (failures : ℕ → Option ℕ) (key : ℕ) (models : List (Device F × OdModel F))
      (d : Disk)
      → is_ok (start_fleet floats json locked failures key models d).0 ≡ true
      → all_present models (start_fleet floats json locked failures key models d).1 ≡ true
  unfolding start_fleet ◌>>=◌
  start_fleet-present locked failures key models d h =
      started-present locked failures key models d (load_all floats json models d)
        (loaded-Known models d) h
