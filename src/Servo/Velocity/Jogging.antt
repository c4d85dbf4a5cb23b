-- ===== src/Servo/Velocity/Jogging.antt =====
-- Jogging and the software limits: `_limit_jog_velocity_at_software_limit` of
-- src/functional_model/cia402_drive/behaviour_model/f_kr_cmmt/servo_model.py.
use ethercat_device_simulato.Prelude.{◌≡◌, arith, false, ◌&&◌}
use ethercat_device_simulato.Exec.{ok, ◌>>=◌}
use ethercat_device_simulato.Numbers.{Numbers, Registers}
use ethercat_device_simulato.Servo.{Servo, zero_number}
use ethercat_device_simulato.Servo.Commands.{software_position_limits}
use ethercat_device_simulato.Servo.Velocity.{limit_jog_velocity}

module _ {O N : Type 0} (nums : Numbers N) (regs : Registers O N) where
  -- A jog velocity that is neither zero nor refused points into the software limits: a positive one
  -- is left to an axis below the upper limit only, a negative one to an axis above the lower limit.
  pub limit_jog_velocity_inside :
      (wanted velocity : N) (limits : N × N) (s : Servo O N)
      → (software_position_limits nums regs s).0 ≡ ok limits
      → (limit_jog_velocity nums regs wanted s).0 ≡ ok velocity
      → nums.lt (zero_number nums regs) (zero_number nums regs) ≡ false
      → ((nums.lt (zero_number nums regs) velocity && nums.le limits.1 s.actual_position) ≡ false)
        × ((nums.lt velocity (zero_number nums regs) && nums.le s.actual_position limits.0) ≡ false)
  unfolding limit_jog_velocity software_position_limits ◌>>=◌
  limit_jog_velocity_inside wanted velocity limits s h k irrefl = ground arith
