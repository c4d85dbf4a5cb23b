-- ===== src/Servo/Tests.antt =====
-- The theorems on the servo at concrete inputs: whole numbers, and registers that hold what is written.
use ethercat_device_simulato.Prelude.{
  ℕ, ◌+◌, ◌-◌, ◌*◌, ◌/◌, ◌^◌, ℤ, pos, negsuc, pos_part, neg_part, ltb_ℤ, leb_ℤ, eqb_ℤ, ◌≡◌, refl,
  true, false, arith, ◌&&◌, if◌then◌else◌, ◌==◌, leb,
}
use ethercat_device_simulato.Exec.{ok, err, other, modify, pure, ◌>>=◌}
use ethercat_device_simulato.Numbers.{Numbers, Registers}
use ethercat_device_simulato.StateMachine.{operation_enabled, process, get_statusword}
use ethercat_device_simulato.Servo.{Servo}
use ethercat_device_simulato.Servo.Homing.Completion.{Homing}
use ethercat_device_simulato.Servo.Position.{process_pp}
use ethercat_device_simulato.Servo.Position.Permission.{process_pp_starts_nothing}
use ethercat_device_simulato.Servo.Cycle.{process_cycle, compose_statusword, is_moving}
use ethercat_device_simulato.Servo.Cycle.Bits.{Shows, compose_statusword_lem}
use ethercat_device_simulato.Servo.Commands.{software_position_limits}
use ethercat_device_simulato.Servo.Velocity.{limit_jog_velocity}
use ethercat_device_simulato.Servo.Velocity.Jogging.{limit_jog_velocity_inside}
use ethercat_device_simulato.Servo.Cycle.Stopping.{process_cycle_stops}

abbrev difference : ℕ → ℕ → ℤ
difference a b = if leb b a then pos (a - b) else negsuc (b - a - 1)

abbrev pub numbers : Numbers ℤ
numbers = record {
  of_int = λ v. v;
  decimal = λ m e. pos (m / 10 ^ e);
  add = λ a b. difference (pos_part a + pos_part b) (neg_part a + neg_part b);
  sub = λ a b. difference (pos_part a + neg_part b) (neg_part a + pos_part b);
  mul = λ a b.
      difference (pos_part a * pos_part b + neg_part a * neg_part b)
        (pos_part a * neg_part b + neg_part a * pos_part b);
  div = λ a b.
      if eqb_ℤ b (pos 0)
      then err other
      else ok (
          difference (pos_part a / (pos_part b + neg_part b))
            (neg_part a / (pos_part b + neg_part b)));
  neg = λ a. difference (neg_part a) (pos_part a);
  abs = λ a. pos (pos_part a + neg_part a);
  lt = ltb_ℤ;
  le = leb_ℤ;
  eq = eqb_ℤ;
  to_float = λ a. a;
  to_int = λ a. ok a;
  to_index = λ a. ok a;
  power_of_ten = λ k. pos (10 ^ pos_part k);
}

abbrev Store : Type 0
Store = ℕ → ℕ → ℤ

abbrev registers : Registers Store ℤ
registers = record {
  read = λ i s o. ok (o i s);
  write = λ i s v. modify (λ o j t. if i == j && s == t then v else o j t);
  read_role = λ role o. ok (pos 0);
  write_role = λ role v. pure tt;
  reset_non_pdo_configuration = pure tt;
  reset_pdo_values = pure tt;
}

abbrev commanded : ℤ → Store
commanded cw index sub = if index == 0x6040 then cw else pos 0

abbrev moving : Servo Store ℤ
moving = record {
  cycle_time = pos 1;
  od = commanded (pos 6);
  sm = operation_enabled;
  actual_position = pos 120;
  actual_velocity = pos 5;
  kp = pos 5;
  target_reached = false;
  window_counter = 0;
  previous_controlword = pos 15;
  pp_active = true;
  pp_target_position = pos 500;
  pp_setpoint_ack = false;
  halt_active = false;
  homing_active = false;
  homing_counter = 0;
  homing_referenced = true;
  homing_error = false;
  software_limit_warning = false;
  position_target_rejected = false;
  last_mode_command = pos 1;
  last_target_position_command = pos 500;
  last_device_reset_command = pos 0;
  last_parameter_save_command = pos 0;
}

shutdown_leaves : (get_statusword (process (pos 6) operation_enabled) == 0x27) ≡ false
unfolding process get_statusword
shutdown_leaves = refl

operation_enabled_statusword : (get_statusword operation_enabled == 0x27) ≡ true
unfolding get_statusword
operation_enabled_statusword = refl

process_cycle_stops_example :
    let s' = (process_cycle numbers registers moving).1 in
    (s'.actual_position ≡ pos 120)
    × (s'.actual_velocity ≡ pos 0)
    × (s'.sm ≡ process (pos 6) operation_enabled)
process_cycle_stops_example =
    process_cycle_stops numbers registers moving (pos 6) (pos 6) refl refl
      operation_enabled_statusword shutdown_leaves

-- A new setpoint for a drive without a reference.
abbrev unreferenced : Servo Store ℤ
unreferenced = record moving {
  pp_active = false;
  actual_velocity = pos 0;
  homing_referenced = false;
  od = commanded (pos 31);
}

small_difference :
    (m : ℤ) → numbers.le m (pos 0) ≡ false → numbers.le (numbers.abs (pos 0)) m ≡ true
small_difference (pos m) h = ground arith
small_difference (negsuc m) h = ground arith

process_pp_starts_nothing_example :
    ((process_pp numbers registers unreferenced).1.pp_active ≡ false)
    × ((process_pp numbers registers unreferenced).1.actual_velocity ≡ pos 0)
unfolding get_statusword
process_pp_starts_nothing_example =
    process_pp_starts_nothing numbers registers small_difference unreferenced refl refl refl

abbrev homing : Servo Store ℤ
homing = record moving {
  od = commanded (pos 31);
  previous_controlword = pos 31;
  homing_active = true;
  homing_counter = 3;
  homing_referenced = false;
}

compose_statusword_example :
    Shows
      (compose_statusword numbers registers false true moving)
      operation_enabled
      false
      false
      (is_moving numbers registers moving)
      true
      true
compose_statusword_example = compose_statusword_lem numbers registers false true moving refl

abbrev at_limit : Servo Store ℤ
at_limit = record moving { actual_position = pos 0 }

limits_read : (software_position_limits numbers registers at_limit).0 ≡ ok (pos 0, pos 0)
unfolding software_position_limits ◌>>=◌
limits_read = refl

jog_stopped : (limit_jog_velocity numbers registers (pos 7) at_limit).0 ≡ ok (pos 0)
unfolding limit_jog_velocity software_position_limits ◌>>=◌
jog_stopped = refl

limit_jog_velocity_example :
    ((ltb_ℤ (pos 0) (pos 0) && leb_ℤ (pos 0) (pos 0)) ≡ false)
    × ((ltb_ℤ (pos 0) (pos 0) && leb_ℤ (pos 0) (pos 0)) ≡ false)
limit_jog_velocity_example =
    limit_jog_velocity_inside numbers registers (pos 7) (pos 0) (pos 0, pos 0) at_limit limits_read
      jog_stopped refl
