-- ===== src/Servo/Cycle.antt =====
-- One cycle of the servo: `process_cycle` and `model_update` of
-- src/functional_model/cia402_drive/behaviour_model/f_kr_cmmt/servo_model.py.
pub mod Stopping
pub mod Bits
use ethercat_device_simulato.Prelude.{
  ℕ, ℤ, pos, negsuc, Bool, true, false, not, ◌&&◌, ◌||◌, if◌then◌else◌, bit_or,
}
use ethercat_device_simulato.Exec.{Exec, pure, lift, gets, modify, when, ◌>>=◌, ◌>>◌}
use ethercat_device_simulato.Numbers.{Numbers, Registers}
use ethercat_device_simulato.StateMachine.{process, get_statusword}
use ethercat_device_simulato.Servo.{
  Servo, read, write, bit_set, stop_at_current_position, is_enabled,
}
use ethercat_device_simulato.Servo.Commands.{apply_od_commands, exceeds_software_limits}
use ethercat_device_simulato.Servo.Homing.{process_homing}
use ethercat_device_simulato.Servo.Position.{process_pp}
use ethercat_device_simulato.Servo.Synchronous.{process_csp}
use ethercat_device_simulato.Servo.Velocity.{process_pv, process_jog}

-- `if flag: statusword |= bits`
abbrev pub set_if : Bool → ℕ → ℕ → ℕ
set_if flag bits statusword = if flag then bit_or statusword bits else statusword

module _ {O N : Type 0} (nums : Numbers N) (regs : Registers O N) where
  -- `_is_moving()`
  unfoldable pub is_moving : Servo O N → Bool
  is_moving s =
      nums.lt (nums.decimal 1 9) (nums.abs (nums.to_float s.actual_velocity))
      || s.pp_active
      || s.homing_active

  -- `_software_limit_is_active()`: the limits are read only where no warning stands.
  unfoldable pub software_limit_is_active : Exec (Servo O N) Bool
  software_limit_is_active = do
    s ← gets (λ s. s)
    if s.software_limit_warning then pure true else exceeds_software_limits nums regs

  -- The controlword acts on the state machine; a drive that leaves Operation enabled stops.
  unfoldable pub command_state : ℤ → Exec (Servo O N) (Unit {0})
  command_state controlword = do
    modify (λ s. record s { halt_active = bit_set controlword 0x100 })
    before ← gets (λ s. s)
    modify (λ s. record s { sm = process controlword s.sm })
    after ← gets (λ s. s)
    when (is_enabled nums regs before && not (is_enabled nums regs after))
        (stop_at_current_position nums regs)

  -- The step of the mode of operation; any other mode does nothing.
  unfoldable pub run_mode : N → Exec (Servo O N) (Unit {0})
  run_mode mode =
      if nums.eq mode (nums.of_int (pos 1))
      then process_pp nums regs
      else if nums.eq mode (nums.of_int (pos 3))
      then process_pv nums regs
      else if nums.eq mode (nums.of_int (pos 8))
      then process_csp nums regs
      else if nums.eq mode (nums.of_int (pos 6))
      then process_homing nums regs
      else when (nums.eq mode (nums.of_int (negsuc 2))) (process_jog nums regs)

  -- The statusword: the state's, with the bits of the servo's flags.
  unfoldable pub compose_statusword : Bool → Bool → Servo O N → ℕ
  unfolding is_moving
  compose_statusword homing_mode limited s = set_if (homing_mode && s.homing_error) 0x8 (
      set_if s.homing_referenced 0x8000 (
        set_if limited 0x800 (
          set_if limited 0x80 (
            set_if (is_moving s) 0x100 (
              set_if s.pp_setpoint_ack 0x1000
                (set_if s.target_reached 0x400 (get_statusword s.sm)))))))

  unfoldable pub publish_statusword : N → Exec (Servo O N) (Unit {0})
  publish_statusword mode = do
    limited ← software_limit_is_active
    s ← gets (λ s. s)
    write nums regs 0x6041 0
        (nums.of_int (pos (compose_statusword (nums.eq mode (nums.of_int (pos 6))) limited s)))

  -- `process_cycle()`
  unfoldable pub process_cycle : Exec (Servo O N) (Unit {0})
  process_cycle = do
    word ← read nums regs 0x6040 0
    controlword ← lift (nums.to_index word)
    command_state controlword
    mode ← read nums regs 0x6060 0
    run_mode mode
    publish_statusword mode
    modify (λ s. record s { previous_controlword = controlword })

  -- `model_update()`
  unfoldable pub model_update : Exec (Servo O N) (Unit {0})
  model_update = apply_od_commands nums regs >> process_cycle
