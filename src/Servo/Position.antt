-- ===== src/Servo/Position.antt =====
-- Profile position: `process_pp` of
-- src/functional_model/cia402_drive/behaviour_model/f_kr_cmmt/servo_model.py.
pub mod Permission
use ethercat_device_simulato.Prelude.{ℕ, ℤ, pos, Bool, true, false, not, ◌&&◌, ◌||◌, if◌then◌else◌}
use ethercat_device_simulato.Exec.{Result, Exec, pure, lift, gets, modify, when, ◌>>=◌, ◌>>◌}
use ethercat_device_simulato.Numbers.{Numbers, Registers}
use ethercat_device_simulato.Servo.{
  Servo, zero_number, one_number, min_of, max_of, read, read_magnitude, bit_set, move_towards,
  write_actual_feedback, decelerate_to_stop, update_target_reached, is_enabled, integrate,
  velocity_to_position_rate, position_rate_to_velocity, acceleration_to_position_rate,
  acceleration_to_velocity_delta,
}

module _ {O N : Type 0} (nums : Numbers N) (regs : Registers O N) where
  abbrev nil : N
  nil = zero_number nums regs

  abbrev rd : ℕ → ℕ → Exec (Servo O N) N
  rd = read nums regs

  -- `_decelerate_to_stop()` and `_write_actual_feedback()`
  abbrev pub slow_down : Exec (Servo O N) (Unit {0})
  slow_down = do decelerate_to_stop nums regs; write_actual_feedback nums regs

  -- `abs(self.actual_velocity) <= 1e-9`
  abbrev pub at_rest : N → Bool
  at_rest velocity = nums.le (nums.abs velocity) (nums.decimal 1 9)

  -- The velocity limit towards `target`, from the profile velocity and the device's limits.
  unfoldable pub velocity_limit : N → Exec (Servo O N) N
  velocity_limit target = do
    profile ← read_magnitude nums regs 0x6081 0
    positive ← read_magnitude nums regs 0x607f 0
    raw ← rd 0x2183 0x0c
    let negative = nums.abs (nums.mul (nums.to_float raw) (nums.of_int (pos 1000)))
    s ← gets (λ s. s)
    let bound =
        if nums.lt target s.actual_position && nums.lt nil negative then negative else positive
    pure (if nums.lt nil bound then min_of nums regs profile bound else profile)

  -- The drive holds or stops where it may not follow a target.
  pp_halted : Exec (Servo O N) (Unit {0})
  pp_halted = do
    modify (λ s. record s { pp_active = false; pp_setpoint_ack = false })
    slow_down
    modify (λ s. record s { target_reached = at_rest s.actual_velocity })

  pp_unreferenced : Exec (Servo O N) (Unit {0})
  pp_unreferenced = do
    modify (λ s. record s { pp_active = false; pp_setpoint_ack = false; target_reached = false })
    slow_down

  -- The target is within the window and the velocity within one step.
  arrive : N → Exec (Servo O N) (Unit {0})
  arrive target = do
    modify (λ s. record s { actual_position = target; actual_velocity = nil; pp_active = false })
    write_actual_feedback nums regs
    update_target_reached nums regs

  -- The desired velocity and the acceleration that leads to it.
  plan_velocity : N → N → N → N → N → Exec (Servo O N) (N × N)
  plan_velocity error distance max_vel accel decel = do
    let direction =
        if nums.le nil error then one_number nums regs else nums.neg (one_number nums regs)
    s ← gets (λ s. s)
    let velocity_toward_target = nums.mul s.actual_velocity direction
    rate ← velocity_to_position_rate nums regs s.actual_velocity
    let position_velocity = nums.mul rate direction
    decel_rate ← acceleration_to_position_rate nums regs decel
    let approach = max_of nums regs position_velocity nil
    stopping_distance ←
        if nums.lt nil decel_rate
        then lift
            (nums.div (nums.mul approach approach) (nums.mul (nums.of_int (pos 2)) decel_rate))
        else pure nil
    pure (
        if nums.lt velocity_toward_target nil || nums.le distance stopping_distance
        then (nil, decel)
        else (nums.mul direction max_vel, accel))

  -- The position after the step, or the target where the step reaches or passes it.
  land : N → N → Exec (Servo O N) (Unit {0})
  land target next_position = do
    s ← gets (λ s. s)
    let remaining = nums.sub target s.actual_position
    modify (λ t.
        if nums.eq remaining nil || nums.le (nums.mul remaining (nums.sub target next_position)) nil
        then record t { actual_position = target; actual_velocity = nil; pp_active = false }
        else record t { actual_position = next_position })
    write_actual_feedback nums regs
    update_target_reached nums regs

  advance : N → N → N → N → N → N → Exec (Servo O N) (Unit {0})
  unfolding plan_velocity land
  advance target error distance max_vel accel decel = do
    plan ← plan_velocity error distance max_vel accel decel
    delta ← acceleration_to_velocity_delta nums regs plan.1
    modify
        (λ s. record s { actual_velocity = move_towards nums regs s.actual_velocity plan.0 delta })
    s ← gets (λ s. s)
    rate ← velocity_to_position_rate nums regs s.actual_velocity
    land target (nums.add s.actual_position (nums.mul rate s.cycle_time))

  follow : Exec (Servo O N) (Unit {0})
  unfolding arrive advance
  follow = do
    start ← gets (λ s. s)
    let target = start.pp_target_position
    max_vel ← velocity_limit target
    accel ← read_magnitude nums regs 0x6083 0
    decel ← read_magnitude nums regs 0x6084 0
    window ← read_magnitude nums regs 0x6067 0
    let error = nums.sub target start.actual_position
    let distance = nums.abs error
    -- The right operand of `and` is evaluated only where the left one holds.
    near ←
        if nums.le distance window
        then (do
          delta ← acceleration_to_velocity_delta nums regs decel
          pure (
              nums.le (nums.abs start.actual_velocity) (max_of nums regs delta (nums.decimal 1 9))))
        else pure false
    if near then arrive target else advance target error distance max_vel accel decel

  pp_idle : Exec (Servo O N) (Unit {0})
  pp_idle = do slow_down; update_target_reached nums regs

  -- What follows the test for a new setpoint.
  pp_move : ℤ → Exec (Servo O N) (Unit {0})
  unfolding follow pp_idle
  pp_move controlword = do
    modify (λ s. record s { pp_setpoint_ack = bit_set controlword 0x10 })
    s ← gets (λ s. s)
    if s.pp_active then follow else pp_idle

  take_setpoint : Exec (Servo O N) (Unit {0})
  take_setpoint = do
    target ← rd 0x607a 0
    modify (λ s. record s {
      pp_target_position = target;
      pp_active = true;
      target_reached = false;
      window_counter = 0;
    })

  refuse_setpoint : Exec (Servo O N) (Unit {0})
  refuse_setpoint = do
    modify (λ s. record s { pp_active = false; pp_setpoint_ack = false })
    slow_down

  new_setpoint : ℤ → Exec (Servo O N) (Unit {0})
  unfolding pp_move take_setpoint refuse_setpoint
  new_setpoint controlword = do
    s ← gets (λ s. s)
    if s.position_target_rejected then refuse_setpoint else (take_setpoint >> pp_move controlword)

  answer_word : ℤ → Exec (Servo O N) (Unit {0})
  unfolding new_setpoint pp_move
  answer_word controlword = do
    s ← gets (λ s. s)
    if bit_set controlword 0x10 && not (bit_set s.previous_controlword 0x10)
        then new_setpoint controlword
        else pp_move controlword

  pp_referenced : Exec (Servo O N) (Unit {0})
  unfolding answer_word
  pp_referenced = do
    word ← rd 0x6040 0
    controlword ← lift (nums.to_index word)
    answer_word controlword

  -- `process_pp()`
  unfoldable pub process_pp : Exec (Servo O N) (Unit {0})
  unfolding pp_halted pp_unreferenced pp_referenced
  process_pp = do
    s ← gets (λ s. s)
    when (is_enabled nums regs s) (
        if s.halt_active
        then pp_halted
        else if s.homing_referenced
        then pp_referenced
        else pp_unreferenced)
