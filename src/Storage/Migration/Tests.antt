-- ===== src/Storage/Migration/Tests.antt =====
-- A migration of a snapshot in schema 1, as src/functional_model/storage/migrate.py does it.
use ethercat_device_simulato.Prelude.{
  ℕ, pos, ◌≡◌, refl, true, false, Option, none, some, List, [], ◌∷◌, to_le, from_le,
}
use ethercat_device_simulato.Exec.{ok, ◌>>=◌}
use ethercat_device_simulato.Text.{
  codes, text_eq, to_hex, hex_digit, from_hex, from_hex_at, hex_value, is_space, is_digit,
}
use ethercat_device_simulato.Codec.Tests.{floats}
use ethercat_device_simulato.Od.{definition, define, lookup, put, key_eq, storage_key, read, write}
use ethercat_device_simulato.Bridge.{read_sdo, is_read_only}
use ethercat_device_simulato.Codec.{encode, decode, pack_whole, to_word, of_word, fits}
use ethercat_device_simulato.DataType.{data_format}
use ethercat_device_simulato.Storage.Disk.{
  FileName, snapshot, file_eq, File, Disk, file, entry_file, below,
}
use ethercat_device_simulato.Storage.Snapshot.{Data, Parsed, document, Json, sub_of, index_of}
use ethercat_device_simulato.Storage.Snapshot.Tests.{device, identity, document_of, od}
use ethercat_device_simulato.Storage.Migration.{migrate_profile_velocity}
use ethercat_device_simulato.Storage.Migration.Backup.{Preserved}
use ethercat_device_simulato.Storage.Migration.Original.{migrate-preserves}

abbrev old_data : Data
old_data = record {
  schema_version = some (pos 1);
  identity = some identity;
  values = some (record { known = []; stray = false });
}

-- A file of one byte is the old document; any other is the text of the velocity.
abbrev parsed : List ℕ → Parsed
parsed (c ∷ []) = document old_data (some (codes "digest"))
parsed content = document (document_of content) (some (codes "digest"))

abbrev json : Json ℕ
json = record {
  parse = parsed;
  digest = λ body. codes "digest";
  dump = λ body digest. codes "07010000" ∷ [];
  is_finite = λ x. true;
}

abbrev entries : FileName → Option ℕ
unfolding file_eq text_eq
entries n = elim (file_eq n (snapshot (codes "axis-0"))) [ true ↦ some 0 | false ↦ none ]

abbrev disk : Disk
disk = record {
  files = λ i. record { content = 9 ∷ []; synced = true };
  next = 1;
  visible = entries;
  stored = entries;
}

abbrev old_file : File
old_file = record { content = 9 ∷ []; synced = true }

migrated :
    (migrate_profile_velocity floats json
      (λ body digest. codes "07010000")
      device
      true
      (some (pos 263))
      none
      none
      0
      (od, disk)).0
    ≡ ok true
unfolding migrate_profile_velocity ◌>>=◌ file entry_file entries definition lookup define put key_eq
    storage_key sub_of index_of read write read_sdo is_read_only encode decode data_format
    pack_whole to_word of_word fits to_hex hex_digit from_hex from_hex_at hex_value is_space
    is_digit to_le from_le file_eq text_eq
migrated = refl

migrate-preserves_example :
    Preserved
      (codes "axis-0")
      (9 ∷ [])
      (migrate_profile_velocity floats json
        (λ body digest. codes "07010000")
        device
        true
        (some (pos 263))
        none
        (some 3)
        0
        (od, disk)).1.1
unfolding below file entry_file file_eq text_eq
migrate-preserves_example =
    migrate-preserves floats json (λ body digest. codes "07010000") device true (some (pos 263))
      none (some 3) 0 od disk old_file refl refl refl
