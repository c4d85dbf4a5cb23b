-- ===== src/Servo/Synchronous.antt =====
-- Cyclic synchronous position: `process_csp` of
-- src/functional_model/cia402_drive/behaviour_model/f_kr_cmmt/servo_model.py.
use ethercat_device_simulato.Prelude.{false, if◌then◌else◌}
use ethercat_device_simulato.Exec.{Exec, gets, modify, when, ◌>>=◌, ◌>>◌}
use ethercat_device_simulato.Numbers.{Numbers, Registers}
use ethercat_device_simulato.Servo.{
  Servo, min_of, max_of, read, write_actual_feedback, update_target_reached, is_enabled, integrate,
  position_rate_to_velocity, acceleration_to_velocity_delta,
}
use ethercat_device_simulato.Servo.Position.{slow_down, at_rest, velocity_limit}

module _ {O N : Type 0} (nums : Numbers N) (regs : Registers O N) where
  csp_halted : Exec (Servo O N) (Unit {0})
  csp_halted = do
    slow_down nums regs
    modify (λ s. record s { target_reached = at_rest nums regs s.actual_velocity })

  csp_unreferenced : Exec (Servo O N) (Unit {0})
  csp_unreferenced = do modify (λ s. record s { target_reached = false }); slow_down nums regs

  -- `max(min(value, bound), -bound)`
  abbrev clamp : N → N → N
  clamp value bound = max_of nums regs (min_of nums regs value bound) (nums.neg bound)

  track : Exec (Servo O N) (Unit {0})
  track = do
    target ← read nums regs 0x607a 0
    max_vel ← velocity_limit nums regs target
    accel ← read nums regs 0x6083 0
    decel ← read nums regs 0x6084 0
    s ← gets (λ s. s)
    wanted ← position_rate_to_velocity nums regs (nums.mul s.kp (nums.sub target s.actual_position))
    let desired = clamp wanted max_vel
    let limit = if nums.lt (nums.abs s.actual_velocity) (nums.abs desired) then accel else decel
    max_delta ← acceleration_to_velocity_delta nums regs limit
    modify (λ t. record t {
      actual_velocity =
          nums.add t.actual_velocity (clamp (nums.sub desired t.actual_velocity) max_delta);
    })
    integrate nums regs
    write_actual_feedback nums regs
    update_target_reached nums regs

  -- `process_csp()`
  unfoldable pub process_csp : Exec (Servo O N) (Unit {0})
  unfolding csp_halted csp_unreferenced track
  process_csp = do
    s ← gets (λ s. s)
    when (is_enabled nums regs s) (
        if s.halt_active
        then csp_halted
        else if s.homing_referenced
        then track
        else csp_unreferenced)
