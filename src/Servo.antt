-- ===== src/Servo.antt =====
-- The state of the virtual servo and what its cycle steps share: class `VirtualCiA402Servo` of
-- src/functional_model/cia402_drive/behaviour_model/f_kr_cmmt/servo_model.py.
pub mod Commands
pub mod Homing
pub mod Position
pub mod Synchronous
pub mod Velocity
pub mod Cycle
pub mod Tests
use ethercat_device_simulato.Prelude.{
  ℕ, ◌+◌, ◌-◌, ℤ, pos, negsuc, Bool, true, false, not, ◌&&◌, ◌||◌, if◌then◌else◌, ltb, leb, ltb_ℤ,
  ◌==◌, has, and_ℤ,
}
use ethercat_device_simulato.Exec.{
  Error, Result, ok, err, then_do, Exec, pure, lift, gets, modify, on_part, ◌>>=◌, ◌>>◌,
}
use ethercat_device_simulato.Numbers.{Numbers, Registers}
use ethercat_device_simulato.StateMachine.{CiA402State, initial, get_statusword}

pub record Servo (O N : Type 0) : Type 0 where
  pub cycle_time : N
  pub od : O
  pub sm : CiA402State
  pub actual_position : N
  pub actual_velocity : N
  pub kp : N
  pub target_reached : Bool
  pub window_counter : ℕ
  pub previous_controlword : ℤ
  pub pp_active : Bool
  pub pp_target_position : N
  pub pp_setpoint_ack : Bool
  pub halt_active : Bool
  pub homing_active : Bool
  pub homing_counter : ℕ
  pub homing_referenced : Bool
  pub homing_error : Bool
  pub software_limit_warning : Bool
  pub position_target_rejected : Bool
  pub last_mode_command : ℤ
  pub last_target_position_command : N
  pub last_device_reset_command : ℤ
  pub last_parameter_save_command : ℤ

-- `controlword & mask`, as a truth value
abbrev pub bit_set : ℤ → ℕ → Bool
bit_set cw mask = not (and_ℤ cw mask == 0)

-- `max(1, n)` of an integer
abbrev pub at_least_one : ℤ → ℕ
at_least_one (pos n) = if ltb 1 n then n else 1
at_least_one (negsuc n) = 1

module _ {O N : Type 0} (nums : Numbers N) (regs : Registers O N) where
  abbrev pub zero_number : N
  zero_number = nums.decimal 0 0

  abbrev pub one_number : N
  one_number = nums.decimal 1 0

  -- `min(a, b)` and `max(a, b)`: the first argument where neither is less.
  abbrev pub min_of : N → N → N
  min_of a b = if nums.lt b a then b else a

  abbrev pub max_of : N → N → N
  max_of a b = if nums.lt a b then b else a

  abbrev pub read : ℕ → ℕ → Exec (Servo O N) N
  read index sub s = (regs.read index sub s.od, s)

  abbrev pub on_od : {X : Type 0} → Exec O X → Exec (Servo O N) X
  on_od = on_part (λ (s : Servo O N). s.od) (λ o s. record s { od = o })

  abbrev pub write : ℕ → ℕ → N → Exec (Servo O N) (Unit {0})
  write index sub v = on_od (regs.write index sub v)

  -- `abs(float(self.od.read(index, sub)))`
  abbrev pub read_magnitude : ℕ → ℕ → Exec (Servo O N) N
  read_magnitude index sub = do v ← read index sub; pure (nums.abs (nums.to_float v))

  -- `stop_at_current_position()`
  unfoldable pub stop_at_current_position : Exec (Servo O N) (Unit {0})
  stop_at_current_position = do
    modify (λ s. record s {
      actual_velocity = zero_number;
      pp_active = false;
      pp_target_position = s.actual_position;
    })
    s ← gets (λ s. s)
    write 0x607a 0 s.actual_position
    modify (λ t. record t { last_target_position_command = s.actual_position })
    write 0x6064 0 s.actual_position
    write 0x606c 0 s.actual_velocity
    modify (λ t. record t { window_counter = 0; target_reached = true })

  -- `is_in_position()`
  unfoldable pub is_in_position : Exec (Servo O N) Bool
  is_in_position = do
    target ← read 0x607a 0
    actual ← read 0x6064 0
    window ← read 0x6067 0
    pure (nums.le (nums.abs (nums.sub target actual)) window)

  -- `update_target_reached()`
  unfoldable pub update_target_reached : Exec (Servo O N) (Unit {0})
  unfolding is_in_position
  update_target_reached = do
    inside ← is_in_position
    modify (λ s.
        if inside
        then record s { window_counter = s.window_counter + 1 }
        else record s { window_counter = 0; target_reached = false })
    window_time_ms ← read 0x6068 0
    s ← gets (λ s. s)
    ratio ← lift (nums.div window_time_ms (nums.mul s.cycle_time (nums.of_int (pos 1000))))
    count ← lift (nums.to_int ratio)
    modify (λ s.
        if leb (at_least_one count) s.window_counter then record s { target_reached = true } else s)

  -- `_write_actual_feedback()`
  unfoldable pub write_actual_feedback : Exec (Servo O N) (Unit {0})
  write_actual_feedback = do
    s ← gets (λ s. s)
    write 0x6064 0 s.actual_position
    write 0x606c 0 s.actual_velocity

  -- `_move_towards(current, target, max_delta)`
  unfoldable pub move_towards : N → N → N → N
  move_towards current target max_delta =
      let delta = nums.sub target current in
      if nums.le max_delta zero_number
      then current
      else if nums.le (nums.abs delta) max_delta
      then target
      else nums.add current (
          nums.mul max_delta
            (if nums.lt zero_number delta then one_number else nums.neg one_number))

  -- `_scale_from_exponent(exponent)` of an integer
  scale_from_exponent : ℤ → N
  scale_from_exponent (pos n) = nums.power_of_ten (if n == 0 then pos 0 else negsuc (n - 1))
  scale_from_exponent (negsuc n) = nums.power_of_ten (negsuc n)

  -- `_unit_scale(subindex)`: 1.0 where the entry cannot be read.
  unit_scale : ℕ → O → N
  unfolding scale_from_exponent
  unit_scale sub od = elim (then_do (regs.read 0x2194 sub od) nums.to_int) [
    | ok exponent ↦ scale_from_exponent exponent
    | err e ↦ one_number
  ]

  -- `_position_scale()`, `_velocity_scale()` and `_acceleration_scale()`: subindex 1, 2 and 3.
  unfoldable pub scale : ℕ → O → N
  unfolding unit_scale
  scale sub od = max_of (unit_scale sub od) (nums.decimal 1 12)

  -- `_velocity_to_position_rate(velocity)`
  unfoldable pub velocity_to_position_rate : N → Exec (Servo O N) N
  velocity_to_position_rate v s =
      (nums.div (nums.mul (nums.to_float v) (scale 2 s.od)) (scale 1 s.od), s)

  -- `_position_rate_to_velocity(position_rate)`
  unfoldable pub position_rate_to_velocity : N → Exec (Servo O N) N
  position_rate_to_velocity r s =
      (nums.div (nums.mul (nums.to_float r) (scale 1 s.od)) (scale 2 s.od), s)

  -- `_acceleration_to_position_rate(acceleration)`
  unfoldable pub acceleration_to_position_rate : N → Exec (Servo O N) N
  acceleration_to_position_rate a s =
      (nums.div (nums.mul (nums.to_float a) (scale 3 s.od)) (scale 1 s.od), s)

  -- `_acceleration_to_velocity_delta(acceleration, self.cycle_time)`
  unfoldable pub acceleration_to_velocity_delta : N → Exec (Servo O N) N
  acceleration_to_velocity_delta a s = (
    then_do (nums.div (nums.mul (nums.to_float a) (scale 3 s.od)) (scale 2 s.od))
        (λ q. ok (nums.mul q (nums.to_float s.cycle_time))),
    s,
  )

  -- `self.actual_position += self._velocity_to_position_rate(self.actual_velocity) * self.cycle_time`
  unfoldable pub integrate : Exec (Servo O N) (Unit {0})
  integrate = do
    s ← gets (λ s. s)
    rate ← velocity_to_position_rate s.actual_velocity
    modify (λ t. record t {
      actual_position = nums.add t.actual_position (nums.mul rate t.cycle_time);
    })

  -- `_decelerate_to_stop()`
  unfoldable pub decelerate_to_stop : Exec (Servo O N) (Unit {0})
  decelerate_to_stop = do
    decel ← read_magnitude 0x6084 0
    delta ← acceleration_to_velocity_delta decel
    modify (λ s. record s { actual_velocity = move_towards s.actual_velocity zero_number delta })
    integrate

  -- `self.sm.get_statusword() == 0x0027`
  abbrev pub is_enabled : Servo O N → Bool
  is_enabled s = get_statusword s.sm == 0x27
