-- ===== src/Storage/Startup/Tests.antt =====
-- A fleet of one axis without a snapshot, as src/functional_model/runtime/fleet.py starts it.
use ethercat_device_simulato.Prelude.{ℕ, ◌≡◌, refl, true, none, List, [], ◌∷◌, to_le}
use ethercat_device_simulato.Exec.{◌>>=◌}
use ethercat_device_simulato.Text.{to_hex, hex_digit}
use ethercat_device_simulato.Codec.{encode, pack_whole, to_word, fits}
use ethercat_device_simulato.Codec.Tests.{floats}
use ethercat_device_simulato.DataType.{data_format}
use ethercat_device_simulato.Bridge.{read_sdo}
use ethercat_device_simulato.Od.{
  OdModel, definition, define, lookup, put, key_eq, storage_key, read,
}
use ethercat_device_simulato.Storage.Disk.{Disk, file, entry_file, content_at}
use ethercat_device_simulato.Storage.Snapshot.{Device, load, save, sub_of, index_of}
use ethercat_device_simulato.Storage.Snapshot.Tests.{device, json, od}
use ethercat_device_simulato.Storage.Startup.{start_fleet}
use ethercat_device_simulato.Storage.Startup.Present.{is_ok, all_present, start_fleet-present}

abbrev empty_disk : Disk
empty_disk = record {
  files = λ i. record { content = []; synced = true };
  next = 0;
  visible = λ n. none;
  stored = λ n. none;
}

abbrev models : List (Device ℕ × OdModel ℕ)
models = (device, od) ∷ []

starts : is_ok (start_fleet floats json true (λ key. none) 0 models empty_disk).0 ≡ true
unfolding start_fleet ◌>>=◌ file entry_file content_at load save definition define lookup put key_eq
    storage_key read read_sdo encode data_format pack_whole to_word fits to_hex hex_digit to_le
    sub_of index_of
starts = refl

start_fleet-present_example :
    all_present models (start_fleet floats json true (λ key. none) 0 models empty_disk).1 ≡ true
start_fleet-present_example =
    start_fleet-present floats json true (λ key. none) 0 models empty_disk starts
