-- ===== src/Servo/Homing.antt =====
-- Homing: `process_homing` of
-- src/functional_model/cia402_drive/behaviour_model/f_kr_cmmt/servo_model.py.
pub mod Completion
use ethercat_device_simulato.Prelude.{
  ℕ, ◌-◌, ℤ, pos, Bool, true, false, not, ◌&&◌, if◌then◌else◌, ltb,
}
use ethercat_device_simulato.Exec.{Result, Exec, pure, lift, gets, modify, when, ◌>>=◌, ◌>>◌}
use ethercat_device_simulato.Numbers.{Numbers, Registers}
use ethercat_device_simulato.Servo.{
  Servo, zero_number, read, write, bit_set, at_least_one, write_actual_feedback, is_enabled,
}

module _ {O N : Type 0} (nums : Numbers N) (regs : Registers O N) where
  -- The rising new-setpoint bit starts homing, for a tenth of a second of cycles.
  start_homing : Exec (Servo O N) (Unit {0})
  start_homing = do
    modify (λ s. record s { homing_active = true })
    s ← gets (λ s. s)
    ratio ← lift (nums.div (nums.decimal 1 1) s.cycle_time)
    count ← lift (nums.to_int ratio)
    modify (λ s. record s {
      homing_counter = at_least_one count;
      homing_referenced = false;
      homing_error = false;
      actual_velocity = zero_number nums regs;
    })
    write_actual_feedback nums regs
    modify (λ s. record s { target_reached = false })

  finish_homing : Exec (Servo O N) (Unit {0})
  finish_homing = do
    modify (λ s. record s {
      actual_position = zero_number nums regs;
      actual_velocity = zero_number nums regs;
    })
    write nums regs 0x607a 0 (zero_number nums regs)
    write_actual_feedback nums regs
    modify
        (λ s. record s { target_reached = true; homing_active = false; homing_referenced = true })

  count_down : Exec (Servo O N) (Unit {0})
  unfolding finish_homing
  count_down = do
    modify (λ s. record s { homing_counter = s.homing_counter - 1 })
    s ← gets (λ s. s)
    when (not (ltb 0 s.homing_counter)) finish_homing

  run_homing : Exec (Servo O N) (Unit {0})
  unfolding start_homing count_down
  run_homing = do
    word ← read nums regs 0x6040 0
    controlword ← lift (nums.to_index word)
    s ← gets (λ s. s)
    when (bit_set controlword 0x10 && not (bit_set s.previous_controlword 0x10)) start_homing
    t ← gets (λ s. s)
    when t.homing_active count_down

  -- `process_homing()`
  unfoldable pub process_homing : Exec (Servo O N) (Unit {0})
  unfolding run_homing
  process_homing = do s ← gets (λ s. s); when (is_enabled nums regs s) run_homing
