-- ===== src/ConfiguredOd/Tests.antt =====
-- The theorem on the resets at a concrete entry.
use ethercat_device_simulato.Prelude.{ℕ, ◌≡◌, refl, pos, false, true, none, some}
use ethercat_device_simulato.Exec.{ok}
use ethercat_device_simulato.Value.{int}
use ethercat_device_simulato.DataType.{uint16}
use ethercat_device_simulato.Od.{
  OdEntry, OdModel, lookup, put, key_eq, storage_key, define, write, read, definition,
}
use ethercat_device_simulato.Od.Tests.{model}
use ethercat_device_simulato.ConfiguredOd.{reset_pdo_values}
use ethercat_device_simulato.ConfiguredOd.Reset.{read-reset_pdo_values}

abbrev moved : OdModel ℕ
moved = (write 0x6041 (int (pos 39)) none model).1

abbrev entry : OdEntry ℕ
entry = record {
  definition = record {
    index = 0x6041;
    subindex = 0;
    name = "Statusword";
    data_type = uint16;
    bit_size = 16;
    access = "ro";
    default = int (pos 0);
    role = some "statusword";
    rxpdo = false;
    txpdo = true;
  };
  value = int (pos 39);
}

found : lookup (storage_key 0x6041 none) moved.entries ≡ some entry
unfolding lookup put key_eq storage_key define write
found = refl

read-reset_pdo_values_example :
    (read 0x6041 none (reset_pdo_values moved) ≡ ok (int (pos 0)))
    × (definition 0x6041 none (reset_pdo_values moved) ≡ ok (entry.definition))
read-reset_pdo_values_example = read-reset_pdo_values 0x6041 none moved entry found
