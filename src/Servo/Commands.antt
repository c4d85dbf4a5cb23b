-- ===== src/Servo/Commands.antt =====
-- Commands written to the Object Dictionary by the master: limits, mode, target, reset and save of
-- src/functional_model/cia402_drive/behaviour_model/f_kr_cmmt/servo_model.py.
use Prim.Native.String.{String}
use ethercat_device_simulato.Prelude.{
  ℕ, ℤ, pos, Bool, true, false, not, ◌&&◌, ◌||◌, Option, none, some, if◌then◌else◌, eqb_ℤ,
}
use ethercat_device_simulato.Exec.{then_do, Exec, pure, lift, gets, modify, when, ◌>>=◌, ◌>>◌}
use ethercat_device_simulato.Numbers.{Numbers, Registers}
use ethercat_device_simulato.Servo.{Servo, read, write, on_od, stop_at_current_position}

module _ {O N : Type 0} (nums : Numbers N) (regs : Registers O N) where
  abbrev rd : ℕ → ℕ → Exec (Servo O N) N
  rd = read nums regs

  abbrev wr : ℕ → ℕ → N → Exec (Servo O N) (Unit {0})
  wr = write nums regs

  abbrev halt : Exec (Servo O N) (Unit {0})
  halt = stop_at_current_position nums regs

  -- `_software_position_limits()`: the two limits in order.
  unfoldable pub software_position_limits : Exec (Servo O N) (N × N)
  software_position_limits = do
    negative ← rd 0x607d 1
    positive ← rd 0x607d 2
    let low = nums.to_float negative
    let high = nums.to_float positive
    pure (if nums.lt high low then (high, low) else (low, high))

  -- `_position_target_is_within_software_limits(position)`
  unfoldable pub within_software_limits : N → Exec (Servo O N) Bool
  within_software_limits position = do
    limits ← software_position_limits
    let p = nums.to_float position
    pure (nums.le limits.0 p && nums.le p limits.1)

  -- `_actual_position_exceeds_software_limits()`
  unfoldable pub exceeds_software_limits : Exec (Servo O N) Bool
  exceeds_software_limits = do
    limits ← software_position_limits
    gets (λ s. nums.lt s.actual_position limits.0 || nums.lt limits.1 s.actual_position)

  -- `_position_command_requires_reference()`
  unfoldable pub requires_reference : Exec (Servo O N) Bool
  requires_reference = do
    mode ← rd 0x6060 0
    m ← lift (nums.to_int mode)
    pure (eqb_ℤ m (pos 1) || eqb_ℤ m (pos 8))

  -- The mode before `set_mode`: given, or read.
  current_mode : Option ℤ → Exec (Servo O N) ℤ
  current_mode (some m) = pure m
  current_mode none = do v ← rd 0x6060 0; lift (nums.to_int v)

  -- `set_mode(mode, previous_mode)`
  unfoldable pub set_mode : ℤ → Option ℤ → Exec (Servo O N) (Unit {0})
  unfolding current_mode
  set_mode next_mode previous = do
    current ← current_mode previous
    when (not (eqb_ℤ next_mode current)) do
      halt
      when (not (eqb_ℤ next_mode (pos 6)))
          (modify (λ s. record s { homing_active = false; homing_error = false }))
    wr 0x6060 0 (nums.of_int next_mode)
    wr 0x6061 0 (nums.of_int next_mode)
    modify (λ s. record s { last_mode_command = next_mode })

  -- The early return of a target that needs a reference: the previous target comes back.
  restore_target : Option N → Exec (Servo O N) (Unit {0})
  restore_target none = pure tt
  restore_target (some previous) = do
    wr 0x607a 0 previous
    modify (λ s. record s { last_target_position_command = previous })

  reject_target : Exec (Servo O N) (Unit {0})
  reject_target = do
    modify (λ s. record s { software_limit_warning = true; position_target_rejected = true })
    halt
    modify (λ s. record s { target_reached = false })

  current_target : Option N → Exec (Servo O N) N
  current_target none = rd 0x607a 0
  current_target (some previous) = pure previous

  accept_target : N → Option N → Exec (Servo O N) (Unit {0})
  unfolding current_target
  accept_target position previous = do
    modify (λ s. record s { position_target_rejected = false })
    outside ← exceeds_software_limits
    when (not outside) (modify (λ s. record s { software_limit_warning = false }))
    current ← current_target previous
    when (not (nums.eq position current))
        (modify (λ s. record s { target_reached = false; window_counter = 0 }))
    wr 0x607a 0 position
    modify (λ s. record s { last_target_position_command = position })

  checked_target : N → Option N → Exec (Servo O N) (Unit {0})
  unfolding accept_target reject_target
  checked_target position previous = do
    inside ← within_software_limits position
    if inside then accept_target position previous else reject_target

  -- `set_target_position(position, previous_target)`
  unfoldable pub set_target_position : N → Option N → Exec (Servo O N) (Unit {0})
  unfolding restore_target checked_target
  set_target_position position previous = do
    needed ← requires_reference
    s ← gets (λ s. s)
    if needed && not s.homing_referenced
        then restore_target previous
        else checked_target position previous

  -- `set_software_position_limits(negative_limit, positive_limit)`
  unfoldable pub set_software_position_limits : N → N → Exec (Servo O N) (Unit {0})
  set_software_position_limits negative positive = do wr 0x607d 1 negative; wr 0x607d 2 positive

  -- `int(self.od.read_role(role))`
  read_role_int : String → Exec (Servo O N) ℤ
  read_role_int role s = (then_do (regs.read_role role s.od) nums.to_int, s)

  -- `_apply_device_reset_response()`
  unfoldable pub apply_device_reset_response : Exec (Servo O N) (Unit {0})
  unfolding read_role_int
  apply_device_reset_response = do
    position ← (λ s. (regs.read_role "actual_position" s.od, s))
    on_od nums regs regs.reset_non_pdo_configuration
    on_od nums regs regs.reset_pdo_values
    on_od nums regs (regs.write_role "target_position" position)
    on_od nums regs (regs.write_role "actual_position" position)
    on_od nums regs (regs.write_role "statusword" (nums.of_int (pos 0x27)))
    mode ← (λ s. (regs.read_role "mode_of_operation" s.od, s))
    on_od nums regs (regs.write_role "mode_of_operation_display" mode)
    last_mode ← read_role_int "mode_of_operation"
    modify (λ s. record s { last_mode_command = last_mode })
    target ← (λ s. (regs.read_role "target_position" s.od, s))
    modify (λ s. record s { last_target_position_command = target })

  report_saved : Exec (Servo O N) (Unit {0})
  report_saved = do
    on_od nums regs (regs.write_role "parameter_save_status" (nums.of_int (pos 0)))
    on_od nums regs (regs.write_role "parameter_save_return_code" (nums.of_int (pos 0)))
    on_od nums regs (regs.write_role "parameter_save_return_value" (nums.of_int (pos 1)))

  apply_reset_and_save : Exec (Servo O N) (Unit {0})
  unfolding read_role_int report_saved
  apply_reset_and_save = do
    reset ← read_role_int "device_reset_command"
    s ← gets (λ s. s)
    when (not (eqb_ℤ reset s.last_device_reset_command) && eqb_ℤ reset (pos 1))
        apply_device_reset_response
    modify (λ s. record s { last_device_reset_command = reset })
    save ← read_role_int "parameter_save_command"
    t ← gets (λ s. s)
    when (not (eqb_ℤ save t.last_parameter_save_command) && eqb_ℤ save (pos 1)) report_saved
    modify (λ s. record s { last_parameter_save_command = save })

  -- `_apply_od_commands()`
  unfoldable pub apply_od_commands : Exec (Servo O N) (Unit {0})
  unfolding apply_reset_and_save read_role_int
  apply_od_commands = do
    apply_reset_and_save
    mode ← read_role_int "mode_of_operation"
    target ← (λ s. (regs.read_role "target_position" s.od, s))
    s ← gets (λ s. s)
    when (not (eqb_ℤ mode s.last_mode_command)) (set_mode mode (some s.last_mode_command))
    t ← gets (λ s. s)
    when (not (nums.eq target t.last_target_position_command))
        (set_target_position target (some t.last_target_position_command))
