-- ===== src/Servo/Velocity.antt =====
-- Profile velocity and jog: `process_pv` and `process_jog` of
-- src/functional_model/cia402_drive/behaviour_model/f_kr_cmmt/servo_model.py.
pub mod Jogging
use ethercat_device_simulato.Prelude.{
  ℕ, ℤ, pos, Bool, true, false, not, ◌&&◌, ◌||◌, if◌then◌else◌, List, [], ◌∷◌,
}
use ethercat_device_simulato.Exec.{Exec, pure, lift, gets, modify, when, ◌>>=◌, ◌>>◌}
use ethercat_device_simulato.Numbers.{Numbers, Registers}
use ethercat_device_simulato.Servo.{
  Servo, zero_number, one_number, min_of, max_of, read, read_magnitude, bit_set, move_towards,
  write_actual_feedback, is_enabled, integrate, acceleration_to_velocity_delta,
}
use ethercat_device_simulato.Servo.Commands.{software_position_limits}
use ethercat_device_simulato.Servo.Position.{at_rest}

module _ {O N : Type 0} (nums : Numbers N) (regs : Registers O N) where
  abbrev nil : N
  nil = zero_number nums regs

  abbrev rd : ℕ → ℕ → Exec (Servo O N) N
  rd = read nums regs

  -- `a == b` of Booleans
  abbrev same : Bool → Bool → Bool
  same a b = if a then b else not b

  -- `abs(float(self.od.read(0x2183, 0x0C)) * 1000.0)`
  negative_velocity_limit : Exec (Servo O N) N
  negative_velocity_limit = do
    raw ← rd 0x2183 0x0c
    pure (nums.abs (nums.mul (nums.to_float raw) (nums.of_int (pos 1000))))

  -- The target velocity within the limit of its direction, where that limit is set.
  unfoldable pub limit_velocity : N → N → N → N
  limit_velocity target positive negative =
      if nums.le nil target && nums.lt nil positive
      then min_of nums regs target positive
      else if nums.lt target nil && nums.lt nil negative
      then max_of nums regs target (nums.neg negative)
      else target

  -- The step of `process_pv` and `process_jog`: towards `target` by the acceleration, or by the
  -- deceleration where the speed does not grow; it returns the greatest change of the velocity.
  ramp : N → N → N → Exec (Servo O N) N
  ramp target accel decel = do
    s ← gets (λ s. s)
    let limit = if nums.lt (nums.abs s.actual_velocity) (nums.abs target) then accel else decel
    delta ← acceleration_to_velocity_delta nums regs limit
    modify
        (λ t. record t { actual_velocity = move_towards nums regs t.actual_velocity target delta })
    integrate nums regs
    write_actual_feedback nums regs
    pure delta

  target_velocity : Exec (Servo O N) N
  target_velocity = do
    s ← gets (λ s. s)
    if s.halt_active then pure nil else (do v ← rd 0x60ff 0; pure (nums.to_float v))

  run_pv : Exec (Servo O N) (Unit {0})
  unfolding ramp target_velocity negative_velocity_limit
  run_pv = do
    wanted ← target_velocity
    positive ← read_magnitude nums regs 0x607f 0
    negative ← negative_velocity_limit
    let target = limit_velocity wanted positive negative
    accel ← rd 0x6083 0
    decel ← rd 0x6084 0
    delta ← ramp target (nums.to_float accel) (nums.to_float decel)
    modify (λ s. record s {
      target_reached =
          nums.le (nums.abs (nums.sub s.actual_velocity target))
            (max_of nums regs delta (nums.decimal 1 9));
    })

  -- `process_pv()`
  unfoldable pub process_pv : Exec (Servo O N) (Unit {0})
  unfolding run_pv
  process_pv = do s ← gets (λ s. s); when (is_enabled nums regs s) run_pv

  -- `[value for value in values if value > 0.0]`
  configured : List N → List N
  configured [] = []
  configured (v ∷ vs) = if nums.lt nil v then v ∷ configured vs else configured vs

  -- `min(values)` of a nonempty list: the first of the least.
  least_of : N → List N → N
  least_of least [] = least
  least_of least (v ∷ vs) = least_of (min_of nums regs least v) vs

  least_or_zero : List N → N
  unfolding least_of
  least_or_zero [] = nil
  least_or_zero (v ∷ vs) = least_of v vs

  -- `_jog_velocity_limit(controlword)`
  unfoldable pub jog_velocity_limit : ℤ → Exec (Servo O N) N
  unfolding configured least_or_zero negative_velocity_limit
  jog_velocity_limit controlword = do
    profile ← read_magnitude nums regs 0x6081 0
    positive ← read_magnitude nums regs 0x607f 0
    negative ← negative_velocity_limit
    let max_velocity = least_or_zero (configured (profile ∷ positive ∷ negative ∷ []))
    let speed_factor =
        if bit_set controlword 0x1000
        then one_number nums regs
        else if bit_set controlword 0x800
        then nums.decimal 25 2
        else nums.decimal 5 1
    pure (nums.mul max_velocity speed_factor)

  -- `_limit_jog_velocity_at_software_limit(target_velocity)`
  unfoldable pub limit_jog_velocity : N → Exec (Servo O N) N
  limit_jog_velocity wanted = do
    let target = nums.to_float wanted
    if nums.le (nums.abs target) (nums.decimal 1 12) then pure nil else (do
      limits ← software_position_limits nums regs
      s ← gets (λ s. s)
      pure (
          if (nums.lt nil target && nums.le limits.1 s.actual_position)
            || (nums.lt target nil && nums.le s.actual_position limits.0)
          then nil
          else target))

  jog_target : ℤ → Exec (Servo O N) N
  jog_target controlword = do
    s ← gets (λ s. s)
    let positive = bit_set controlword 0x10
    if same positive (bit_set controlword 0x20) || s.halt_active then pure nil else (do
      limit ← jog_velocity_limit controlword
      let direction = if positive then one_number nums regs else nums.neg (one_number nums regs)
      pure (nums.mul direction limit))

  run_jog : Exec (Servo O N) (Unit {0})
  unfolding ramp jog_target
  run_jog = do
    word ← rd 0x6040 0
    controlword ← lift (nums.to_index word)
    wanted ← jog_target controlword
    accel ← rd 0x6083 0
    decel ← rd 0x6084 0
    target ← limit_jog_velocity wanted
    ramp target (nums.to_float accel) (nums.to_float decel)
    modify (λ s. record s { target_reached = at_rest nums regs s.actual_velocity })

  -- `process_jog()`
  unfoldable pub process_jog : Exec (Servo O N) (Unit {0})
  unfolding run_jog
  process_jog = do s ← gets (λ s. s); when (is_enabled nums regs s) run_jog
