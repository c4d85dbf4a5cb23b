-- ===== src/Bridge/Tests.antt =====
-- The theorem on SDO access at a concrete entry.
use ethercat_device_simulato.Prelude.{ℕ, pos, ◌≡◌, refl, arith, false, true, some, [], ◌∷◌}
use ethercat_device_simulato.Exec.{ok}
use ethercat_device_simulato.Od.{
  Definition, OdModel, Changes, empty, define, definition, lookup, put, key_eq, storage_key,
}
use ethercat_device_simulato.Od.Tests.{position}
use ethercat_device_simulato.Value.{int}
use ethercat_device_simulato.DataType.{int32, data_format}
use ethercat_device_simulato.Codec.RoundTrip.{IsWhole}
use ethercat_device_simulato.Codec.Tests.{floats}
use ethercat_device_simulato.Bridge.{is_read_only, read_sdo, write_sdo}
use ethercat_device_simulato.Bridge.RoundTrip.{sdo_round_trip}

abbrev target : Changes ℕ
target = record position {
  name = "Target position";
  access = some "rw";
  role = some "target_position";
}

abbrev od : OdModel ℕ
od = define 0x607a 0 target empty

abbrev d : Definition ℕ
d = record {
  index = 0x607a;
  subindex = 0;
  name = "Target position";
  data_type = int32;
  bit_size = 32;
  access = "rw";
  default = int (pos 0);
  role = some "target_position";
  rxpdo = false;
  txpdo = true;
}

found : definition 0x607a (some 0) od ≡ ok d
unfolding definition define lookup put key_eq storage_key
found = refl

writable : is_read_only "rw" ≡ false
unfolding is_read_only
writable = refl

int32-IsWhole : IsWhole int32 3 true
unfolding data_format
int32-IsWhole = record { format = refl }

sdo_round_trip_example :
    ((write_sdo floats 0x607a 0 (1 ∷ 2 ∷ 3 ∷ 255 ∷ []) od).0 ≡ ok tt)
    × (read_sdo floats 0x607a 0 4 (write_sdo floats 0x607a 0 (1 ∷ 2 ∷ 3 ∷ 255 ∷ []) od).1
        ≡ ok (1 ∷ 2 ∷ 3 ∷ 255 ∷ []))
sdo_round_trip_example =
    sdo_round_trip floats 0x607a 0 3 true (1 ∷ 2 ∷ 3 ∷ 255 ∷ []) od d found writable int32-IsWhole
      refl (omega arith, (omega arith, (omega arith, (omega arith, tt))))
