-- ===== src/Storage/Disk.antt =====
-- The file operations of `ParameterStore.save` in src/functional_model/storage/parameter_store.py, over a
-- POSIX file system: directory entries and file data reach the disk only when they are synced.
pub mod Writing
pub mod Crash
pub mod Apart
mod Tests
use ethercat_device_simulato.Prelude.{
  ℕ, zero, suc, ◌+◌, Bool, true, false, ◌&&◌, Option, none, some, List, [], ◌∷◌, ◌++◌, map,
  if◌then◌else◌, ◌==◌, ltb,
}
use ethercat_device_simulato.Text.{Text, text_eq}

-- A name in the storage directory: `parameter_set + '.json'`, `parameter_set + '.json.schema1.bak'`
-- and a name that `mkstemp` makes up, which no other file has.
pub data FileName : Type 0 where
  snapshot backup : Text → FileName
  temporary : ℕ → FileName

unfoldable pub file_eq : FileName → FileName → Bool
file_eq (snapshot a) (snapshot b) = text_eq a b
file_eq (backup a) (backup b) = text_eq a b
file_eq (temporary a) (temporary b) = a == b
file_eq _ _ = false

-- The data of a file, and whether all of it is on the disk.
pub record File : Type 0 where
  pub content : List ℕ
  pub synced : Bool

-- Files by number; a directory maps names to files. A crash may lose the entries of `visible` that
-- are not in `stored`, and data that is not synced.
pub record Disk : Type 0 where
  pub files : ℕ → File
  pub next : ℕ
  pub visible : FileName → Option ℕ
  pub stored : FileName → Option ℕ

pub data FileOp : Type 0 where
  create fsync unlink : FileName → FileOp
  append : FileName → List ℕ → FileOp
  replace : FileName → FileName → FileOp
  sync_directory : FileOp

unfoldable pub set_entry : FileName → Option ℕ → (FileName → Option ℕ) → FileName → Option ℕ
unfolding file_eq
set_entry n e entries m = if file_eq n m then e else entries m

unfoldable pub set_file : ℕ → File → (ℕ → File) → ℕ → File
set_file i f files j = if i == j then f else files j

-- A change of the file that an entry names.
unfoldable pub change_file : Option ℕ → (File → File) → Disk → Disk
unfolding set_file
change_file none f d = d
change_file (some i) f d = record d { files = set_file i (f (d.files i)) d.files }

appended : List ℕ → File → File
appended bytes f = record { content = f.content ++ bytes; synced = false }

all_synced : File → File
all_synced f = record f { synced = true }

unfoldable pub apply : FileOp → Disk → Disk
unfolding set_entry set_file change_file appended all_synced
apply (create n) d = record d {
  files = set_file d.next (record { content = []; synced = false }) d.files;
  next = d.next + 1;
  visible = set_entry n (some d.next) d.visible;
}
apply (append n bytes) d = change_file (d.visible n) (appended bytes) d
apply (fsync n) d = change_file (d.visible n) all_synced d
apply (replace a b) d = record d {
  visible = set_entry a none (set_entry b (d.visible a) d.visible);
}
apply (unlink n) d = record d { visible = set_entry n none d.visible }
apply sync_directory d = record d { stored = d.visible }

unfoldable pub run : List FileOp → Disk → Disk
run [] d = d
run (op ∷ ops) d = run ops (apply op d)

-- From `os.replace` on; `os.name != 'nt'` selects the sync of the directory.
unfoldable pub install_ops : Bool → FileName → FileName → List FileOp
install_ops posix t target = replace t target ∷ (if posix then sync_directory ∷ [] else [])

-- What `json.dump` writes arrives in pieces.
unfoldable pub write_ops : FileName → List (List ℕ) → List FileOp → List FileOp
write_ops t [] rest = fsync t ∷ rest
write_ops t (piece ∷ pieces) rest = append t piece ∷ write_ops t pieces rest

-- From `mkstemp` on, without the `finally` clause, which is `unlink t`.
unfoldable pub save_ops : Bool → FileName → FileName → List (List ℕ) → List FileOp
unfolding write_ops install_ops
save_ops posix t target pieces = create t ∷ write_ops t pieces (install_ops posix t target)

-- The `finally` clause runs when an operation raises, and not in a crash.
unfoldable pub stop : Bool → FileName → Disk → Disk
unfolding apply
stop raised t d = if raised then apply (unlink t) d else d

-- `save` that raises, or is lost in a crash, at the operation with number `n`; a larger `n` lets it
-- reach the end.
unfoldable pub save_until : Bool → ℕ → List FileOp → FileName → Disk → Disk
unfolding stop
save_until raised zero ops t d = stop raised t d
save_until raised (suc n) [] t d = stop raised t d
save_until raised (suc n) (op ∷ ops) t d = save_until raised n ops t (apply op d)

-- `save` that returns.
unfoldable pub save : Bool → FileName → FileName → List (List ℕ) → Disk → Disk
unfolding run save_ops apply
save posix t target pieces d = apply (unlink t) (run (save_ops posix t target pieces) d)

-- The file that an entry names.
unfoldable pub entry_file : Disk → Option ℕ → Option File
entry_file d none = none
entry_file d (some i) = some (d.files i)

unfoldable pub file : FileName → Disk → Option File
unfolding entry_file
file n d = entry_file d (d.visible n)

-- The data of a file.
abbrev pub content_of : Option File → Option (List ℕ)
content_of none = none
content_of (some f) = some f.content

-- What a crash may leave besides.
unfoldable pub stored_file : FileName → Disk → Option File
unfolding entry_file
stored_file n d = entry_file d (d.stored n)

unfoldable pub joined : List (List ℕ) → List ℕ
joined [] = []
joined (piece ∷ pieces) = piece ++ joined pieces

-- All entries name files that exist.
unfoldable pub below : ℕ → Option ℕ → Bool
below next none = true
below next (some i) = ltb i next

-- The bytes of a file that is there
unfoldable pub content_at : FileName → Disk → Option (List ℕ)
unfolding file
content_at n d = content_of (file n d)
