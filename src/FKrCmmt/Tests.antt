-- ===== src/FKrCmmt/Tests.antt =====
-- The theorem on the adapter at a concrete PDO.
use ethercat_device_simulato.Prelude.{
  ℕ, ◌≡◌, refl, ℤ, pos, false, none, some, List, [], ◌∷◌, from_le, length,
}
use ethercat_device_simulato.Exec.{ok, err, then_do, device_rejected, key_error}
use ethercat_device_simulato.Value.{Value, int}
use ethercat_device_simulato.DataType.{uint16, int8, bit_length, data_format}
use ethercat_device_simulato.Codec.{of_word}
use ethercat_device_simulato.Codec.Tests.{floats}
use ethercat_device_simulato.Od.{OdModel}
use ethercat_device_simulato.Od.Tests.{model}
use ethercat_device_simulato.Bridge.{PdoEntry, byte_length}
use ethercat_device_simulato.ConfiguredOd.{Profile}
use ethercat_device_simulato.Numbers.{Numbers}
use ethercat_device_simulato.StateMachine.{switch_on_disabled}
use ethercat_device_simulato.Servo.{Servo}
use ethercat_device_simulato.Servo.Tests.{numbers}
use ethercat_device_simulato.FKrCmmt.{signed_of, is_supported, total_length, apply_outputs}
use ethercat_device_simulato.FKrCmmt.Rejection.{Unsupported, apply_outputs-rejects}

abbrev pub whole_of : Value ℕ → ℤ
whole_of (int v) = v
whole_of _ = pos 0

-- The whole numbers as values
abbrev pub values : Numbers (Value ℕ)
values = record {
  of_int = λ v. int v;
  decimal = λ m e. int (numbers.decimal m e);
  add = λ a b. int (numbers.add (whole_of a) (whole_of b));
  sub = λ a b. int (numbers.sub (whole_of a) (whole_of b));
  mul = λ a b. int (numbers.mul (whole_of a) (whole_of b));
  div = λ a b. then_do (numbers.div (whole_of a) (whole_of b)) (λ q. ok (int q));
  neg = λ a. int (numbers.neg (whole_of a));
  abs = λ a. int (numbers.abs (whole_of a));
  lt = λ a b. numbers.lt (whole_of a) (whole_of b);
  le = λ a b. numbers.le (whole_of a) (whole_of b);
  eq = λ a b. numbers.eq (whole_of a) (whole_of b);
  to_float = λ a. a;
  to_int = λ a. ok (whole_of a);
  to_index = λ a. ok (whole_of a);
  power_of_ten = λ k. int (numbers.power_of_ten k);
}

abbrev profile : Profile ℕ
profile = record {
  catalog = [];
  object_bits = λ index sub. err key_error;
  roles = [];
  configuration = none;
  rx = [];
  tx = [];
}

abbrev controlword : PdoEntry
controlword = record {
  index = 0x6040;
  subindex = 0;
  data_type = uint16;
  field = some "controlword";
}

abbrev mode : PdoEntry
mode = record { index = 0x6060; subindex = 0; data_type = int8; field = some "mode_of_operation" }

abbrev drive : Servo (OdModel ℕ) (Value ℕ)
drive = record {
  cycle_time = int (pos 1);
  od = model;
  sm = switch_on_disabled;
  actual_position = int (pos 0);
  actual_velocity = int (pos 0);
  kp = int (pos 5);
  target_reached = false;
  window_counter = 0;
  previous_controlword = pos 0;
  pp_active = false;
  pp_target_position = int (pos 0);
  pp_setpoint_ack = false;
  halt_active = false;
  homing_active = false;
  homing_counter = 0;
  homing_referenced = false;
  homing_error = false;
  software_limit_warning = false;
  position_target_rejected = false;
  last_mode_command = pos 0;
  last_target_position_command = int (pos 0);
  last_device_reset_command = pos 0;
  last_parameter_save_command = pos 0;
}

-- A controlword, and mode 2
abbrev payload : List ℕ
payload = 15 ∷ 0 ∷ 2 ∷ []

three_bytes : total_length (controlword ∷ mode ∷ []) ≡ ok (length payload)
unfolding total_length byte_length bit_length data_format
three_bytes = refl

two_bytes : total_length (controlword ∷ []) ≡ ok 2
unfolding total_length byte_length bit_length data_format
two_bytes = refl

one_byte : byte_length mode ≡ ok 1
unfolding byte_length bit_length data_format
one_byte = refl

mode_two : Unsupported 2 1 payload
unfolding is_supported signed_of of_word from_le
mode_two = refl

apply_outputs-rejects_example :
    apply_outputs floats values
      (λ dt. int (pos dt))
      profile
      (controlword ∷ mode ∷ [])
      []
      payload
      drive
    ≡ (err device_rejected, drive)
apply_outputs-rejects_example =
    apply_outputs-rejects floats values (λ dt. int (pos dt)) profile [] (controlword ∷ []) [] mode
      payload 2 1 drive three_bytes two_bytes one_byte refl mode_two
