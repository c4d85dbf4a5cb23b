-- ===== src/Storage/Disk/Writing.antt =====
-- A save of src/functional_model/storage/parameter_store.py while it writes its temporary file.
use ethercat_device_simulato.Prelude.{
  ℕ, ◌≡◌, refl, ap, ◌∙◌, arith, Bool, true, false, Option, none, some, List, [], ◌∷◌, ◌==◌,
  if◌then◌else◌,
}
use ethercat_device_simulato.Text.{Text, text_eq}
use ethercat_device_simulato.Storage.Disk.{
  FileName, snapshot, temporary, file_eq, File, Disk, create, replace, set_entry, set_file,
  change_file, apply, entry_file, file, stored_file, below,
}

pub text_eq_refl : (s : Text) → text_eq s s ≡ true
unfolding text_eq
text_eq_refl [] = refl
text_eq_refl (c ∷ s) = rw (text_eq_refl s) (ground arith)

unfoldable pub elsewhere : ℕ → Option ℕ → Bool
elsewhere i none = true
elsewhere i (some j) = if i == j then false else true

module _ (key : ℕ) (name : Text) (old : Option File) where
  -- The temporary file holds `content`, and the target is as it was.
  pub record Writing (content : List ℕ) (synced : Bool) (d : Disk) : Type 0 where
    pub number : ℕ
    pub temporary_entry : d.visible (temporary key) ≡ some number
    pub written : d.files number ≡ record { content = content; synced = synced }
    pub visible_other : elsewhere number (d.visible (snapshot name)) ≡ true
    pub stored_other : elsewhere number (d.stored (snapshot name)) ≡ true
    pub visible_old : file (snapshot name) d ≡ old
    pub stored_old : stored_file (snapshot name) d ≡ old

pub kept_file :
    (i : ℕ) (e : Option ℕ) (f : File) (d d' : Disk)
    → d'.files ≡ set_file i f d.files
    → elsewhere i e ≡ true
    → entry_file d' e ≡ entry_file d e
unfolding elsewhere entry_file set_file
kept_file i none f d d' hf h = refl
kept_file i (some j) f d d' hf h = rw (hf) (ground arith)

pub below-elsewhere : (i : ℕ) (e : Option ℕ) → below i e ≡ true → elsewhere i e ≡ true
unfolding below elsewhere
below-elsewhere i none h = refl
below-elsewhere i (some j) h = ground arith

pub set_file-same : (i : ℕ) (f : File) (files : ℕ → File) → set_file i f files i ≡ f
unfolding set_file
set_file-same i f files = ground arith

pub visible-same :
    (key : ℕ) (e : Option ℕ) (entries : FileName → Option ℕ)
    → set_entry (temporary key) e entries (temporary key) ≡ e
unfolding set_entry file_eq
visible-same key e entries = ground arith

module _ (key : ℕ) (name : Text) (old : Option File) where
  pub create-Writing :
      (d : Disk)
      → below d.next (d.visible (snapshot name)) ≡ true
      → below d.next (d.stored (snapshot name)) ≡ true
      → file (snapshot name) d ≡ old
      → stored_file (snapshot name) d ≡ old
      → Writing key name old [] false (apply (create (temporary key)) d)
  unfolding apply set_entry file_eq file stored_file
  create-Writing d hv hs ov os =
      let d' = apply (create (temporary key)) d in
      record {
        number = d.next;
        temporary_entry = visible-same key (some d.next) d.visible;
        written = set_file-same d.next (record { content = []; synced = false }) d.files;
        visible_other = below-elsewhere d.next (d.visible (snapshot name)) hv;
        stored_other = below-elsewhere d.next (d.stored (snapshot name)) hs;
        visible_old =
            kept_file d.next (d.visible (snapshot name)) (record { content = []; synced = false }) d
              d' refl (below-elsewhere d.next (d.visible (snapshot name)) hv)
            ∙ ov;
        stored_old =
            kept_file d.next (d.stored (snapshot name)) (record { content = []; synced = false }) d
              d' refl (below-elsewhere d.next (d.stored (snapshot name)) hs)
            ∙ os;
      }

  -- A change of the temporary file's data.
  pub change-Writing :
      (c c' : List ℕ) (b b' : Bool) (g : File → File) (d : Disk)
      → Writing key name old c b d
      → g (record { content = c; synced = b }) ≡ record { content = c'; synced = b' }
      → Writing key name old c' b' (change_file (d.visible (temporary key)) g d)
  unfolding change_file file stored_file
  change-Writing c c' b b' g d w h = rw (w.temporary_entry) (record {
    number = w.number;
    temporary_entry = w.temporary_entry;
    written = set_file-same w.number (g (d.files w.number)) d.files ∙ ap g w.written ∙ h;
    visible_other = w.visible_other;
    stored_other = w.stored_other;
    visible_old =
        kept_file w.number (d.visible (snapshot name)) (g (d.files w.number)) d
          (change_file (some w.number) g d) refl w.visible_other
        ∙ w.visible_old;
    stored_old =
        kept_file w.number (d.stored (snapshot name)) (g (d.files w.number)) d
          (change_file (some w.number) g d) refl w.stored_other
        ∙ w.stored_old;
  })

  -- The files of the target once the temporary file took its name.
  pub replaced_visible :
      (c : List ℕ) (d : Disk)
      → Writing key name old c true d
      → file (snapshot name) (apply (replace (temporary key) (snapshot name)) d)
        ≡ some (record { content = c; synced = true })
  unfolding apply set_entry file_eq file entry_file
  replaced_visible c d w = rw (text_eq_refl name, w.temporary_entry) (ap some w.written)

  pub replaced_stored :
      (c : List ℕ) (d : Disk)
      → Writing key name old c true d
      → stored_file (snapshot name) (apply (replace (temporary key) (snapshot name)) d) ≡ old
  unfolding apply stored_file
  replaced_stored c d w = w.stored_old
