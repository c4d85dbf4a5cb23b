-- ===== src/Storage/Disk/Tests.antt =====
-- Runs of `save` of src/functional_model/storage/parameter_store.py.
use ethercat_device_simulato.Prelude.{
  ℕ, ◌≡◌, refl, true, false, Option, none, some, List, [], ◌∷◌, length,
}
use ethercat_device_simulato.Text.{Text, codes, text_eq}
use ethercat_device_simulato.Storage.Disk.{
  FileName, snapshot, temporary, file_eq, File, Disk, save_ops, save_until, save, apply, stop,
  below, entry_file, file, stored_file, set_entry, set_file, change_file, write_ops, install_ops,
  joined,
}
use ethercat_device_simulato.Storage.Disk.Crash.{Recoverable, Installed, save-durable}

abbrev axis_0 : Text
axis_0 = codes "axis-0"

-- The snapshot of the axis holds 7, 7.
abbrev entries : FileName → Option ℕ
unfolding file_eq
entries n = elim (file_eq n (snapshot axis_0)) [ true ↦ some 0 | false ↦ none ]

abbrev before : Disk
before = record {
  files = λ i. record { content = 7 ∷ 7 ∷ []; synced = true };
  next = 1;
  visible = entries;
  stored = entries;
}

abbrev old_file : Option File
old_file = some (record { content = 7 ∷ 7 ∷ []; synced = true })

abbrev pieces : List (List ℕ)
pieces = (1 ∷ []) ∷ (2 ∷ 3 ∷ []) ∷ []

-- The number of operations is one for each piece and four more.
length-save_ops : length (save_ops true (temporary 0) (snapshot axis_0) pieces) ≡ 6
unfolding save_ops write_ops install_ops
length-save_ops = refl

-- A crash before the sync of the directory, and one after.
crash_at_5 :
    stored_file (snapshot axis_0) (
      save_until false 5
        (save_ops true (temporary 0) (snapshot axis_0) pieces)
        (temporary 0)
        before)
    ≡ old_file
unfolding save_until save_ops write_ops install_ops stop apply set_entry set_file change_file
    file_eq text_eq entry_file stored_file
crash_at_5 = refl

crash_at_6 :
    stored_file (snapshot axis_0) (
      save_until false 6
        (save_ops true (temporary 0) (snapshot axis_0) pieces)
        (temporary 0)
        before)
    ≡ some (record { content = 1 ∷ 2 ∷ 3 ∷ []; synced = true })
unfolding save_until save_ops write_ops install_ops stop apply set_entry set_file change_file
    file_eq text_eq entry_file stored_file
crash_at_6 = refl

save-durable_example :
    Recoverable (snapshot axis_0) old_file (joined pieces) (
      save_until true 4 (save_ops true (temporary 0) (snapshot axis_0) pieces) (temporary 0) before)
    × Installed
        (snapshot axis_0)
        (joined pieces)
        (save true (temporary 0) (snapshot axis_0) pieces before)
unfolding below file stored_file entry_file file_eq text_eq
save-durable_example = save-durable 0 axis_0 old_file true true 4 pieces before refl refl refl refl
