-- ===== src/FKrCmmt.antt =====
-- The adapter of the built-in drive: `FKrCmmtAdapter` of
-- src/functional_model/cia402_drive/adapter/f_kr_cmmt.py. It fills the servo's registers with the Object
-- Dictionary and the runtime's adapter with the servo. Roles are looked up by the scan.
pub mod Rejection
pub mod Tests
use ethercat_device_simulato.Prelude.{
  ℕ, ◌+◌, ℤ, pos, negsuc, Bool, true, false, not, ◌&&◌, ◌||◌, Option, none, some, List, [], ◌∷◌,
  if◌then◌else◌, ◌==◌, eqb_ℤ, length, take, drop, from_le,
}
use ethercat_device_simulato.Exec.{
  Error, device_rejected, value_error, Result, ok, err, then_do, Exec, pure, raise, lift, gets,
  modify, check, when, on_part, ◌>>=◌, ◌>>◌,
}
use ethercat_device_simulato.Value.{Value, int}
use ethercat_device_simulato.Codec.{Floats, of_word}
use ethercat_device_simulato.Od.{OdModel, read, write}
use ethercat_device_simulato.RoleIndex.{definition_by_role, write_role}
use ethercat_device_simulato.Bridge.{
  PdoEntry, byte_length, read_sdo, write_sdo, rxpdo_payload_to_od, od_to_txpdo_payload,
}
use ethercat_device_simulato.ConfiguredOd.{
  Profile, PdoObject, reset_non_pdo_configuration, reset_pdo_values,
}
use ethercat_device_simulato.Adapter.{DriveAdapter}
use ethercat_device_simulato.Numbers.{Numbers, Registers}
use ethercat_device_simulato.Servo.{Servo}
use ethercat_device_simulato.Servo.Cycle.{model_update}

-- `int.from_bytes(payload, 'little', signed=True)`
unfoldable pub signed_of : List ℕ → ℤ
signed_of payload = of_word (length payload) true (from_le payload)

-- `capabilities.modes`, and zero
unfoldable pub is_supported : ℤ → Bool
is_supported mode =
    eqb_ℤ mode (pos 0)
    || eqb_ℤ mode (pos 1)
    || eqb_ℤ mode (pos 3)
    || eqb_ℤ mode (pos 6)
    || eqb_ℤ mode (pos 8)
    || eqb_ℤ mode (negsuc 2)

-- `validate_mode(mode)`
unfoldable pub validate_mode : {S : Type 0} → ℤ → Exec S (Unit {0})
validate_mode mode = check (is_supported mode) device_rejected

-- `(index, subindex) == (0x6060, 0)`
abbrev pub is_mode : ℕ → ℕ → Bool
is_mode index sub = index == 0x6060 && sub == 0

-- `sum(x.byte_length for x in rx)`
unfoldable pub total_length : List PdoEntry → Result ℕ
total_length [] = ok 0
total_length (e ∷ es) = then_do (byte_length e) (λ n. then_do (total_length es) (λ m. ok (n + m)))

-- The loop of `apply_outputs`, from `offset`
unfoldable pub validate_modes : {S : Type 0} → List PdoEntry → ℕ → List ℕ → Exec S (Unit {0})
validate_modes [] offset payload = pure tt
validate_modes (e ∷ es) offset payload = do
  n ← lift (byte_length e)
  when (is_mode e.index e.subindex) (validate_mode (signed_of (take n (drop offset payload))))
  validate_modes es (offset + n) payload

module _ {F : Type 0} (profile : Profile F) where
  -- The servo's view of the Object Dictionary
  abbrev pub registers : Registers (OdModel F) (Value F)
  registers = record {
    read = λ index sub od. read index (some sub) od;
    write = λ index sub v. write index v (some sub);
    read_role = λ role od.
        then_do (definition_by_role (some role) od) (λ d. read d.index (some d.subindex) od);
    write_role = λ role v. write_role role v;
    reset_non_pdo_configuration = reset_non_pdo_configuration profile;
    reset_pdo_values = modify reset_pdo_values;
  }

module _ {F : Type 0} (floats : Floats F) (nums : Numbers (Value F)) (seconds : ℕ → Value F)
    (profile : Profile F) (rx tx : List PdoEntry) where
  abbrev Drive : Type 0
  Drive = Servo (OdModel F) (Value F)

  abbrev on_od : {X : Type 0} → Exec (OdModel F) X → Exec Drive X
  on_od = on_part (λ (s : Drive). s.od) (λ o s. record s { od = o })

  -- `write_sdo(index, subindex, payload)`
  unfoldable pub adapter_write_sdo : ℕ → ℕ → List ℕ → Exec Drive (Unit {0})
  adapter_write_sdo index sub payload = do
    when (is_mode index sub) (validate_mode (signed_of payload))
    on_od (write_sdo floats index sub payload)

  -- `apply_outputs(payload)`
  unfoldable pub apply_outputs : List ℕ → Exec Drive (Unit {0})
  apply_outputs payload = do
    expected ← lift (total_length rx)
    check (length payload == expected) value_error
    validate_modes rx 0 payload
    on_od (rxpdo_payload_to_od floats rx payload)

  -- `step(dt)`; `seconds` is the time step in Python's numbers.
  unfoldable pub step : ℕ → Exec Drive (Unit {0})
  step dt = do
    modify (λ s. record s { cycle_time = seconds dt })
    model_update nums (registers profile)

  -- `FKrCmmtAdapter`
  abbrev pub adapter : DriveAdapter Drive
  adapter = record {
    read_sdo = λ index sub size s. (read_sdo floats index sub size s.od, s);
    write_sdo = adapter_write_sdo;
    apply_outputs = apply_outputs;
    step = step;
    read_inputs = λ s. (od_to_txpdo_payload floats tx s.od, s);
    od_equals = λ index sub n s.
        (then_do (read index (some sub) s.od) (λ v. ok (nums.eq v (nums.of_int (pos n)))), s);
    od_write_role = λ role n. on_od (write_role role (nums.of_int (pos n)));
  }
