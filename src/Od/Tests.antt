-- ===== src/Od/Tests.antt =====
-- The theorems on the Object Dictionary at concrete inputs.
use ethercat_device_simulato.Prelude.{ℕ, ◌≡◌, pos, true, none, some, ◌&&◌, if◌then◌else◌}
use ethercat_device_simulato.Exec.{ok}
use ethercat_device_simulato.Value.{int}
use ethercat_device_simulato.DataType.{uint16, int32}
use ethercat_device_simulato.Od.{OdModel, Changes, empty, define, read, write, has_entry}
use ethercat_device_simulato.Od.Laws.{same_address, read-write}

abbrev pub statusword : Changes ℕ
statusword = record {
  name = "Statusword";
  data_type = uint16;
  bit_size = 16;
  access = some "ro";
  default = none;
  role = some "statusword";
  rxpdo = none;
  txpdo = some true;
}

abbrev pub position : Changes ℕ
position = record statusword {
  name = "Position";
  data_type = int32;
  bit_size = 32;
  role = some "actual_position";
}

abbrev pub model : OdModel ℕ
model = define 0x6064 0 position (define 0x6041 0 statusword empty)

abbrev written : OdModel ℕ
written = (write 0x6041 (int (pos 39)) none model).1

read-write_example : read 0x6041 (some 0) written ≡ (
    if has_entry 0x6041 none model && same_address 0x6041 none 0x6041 (some 0)
    then ok (int (pos 39))
    else read 0x6041 (some 0) model)
read-write_example = read-write 0x6041 (int (pos 39)) none model 0x6041 (some 0)
