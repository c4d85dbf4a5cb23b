-- ===== src/Copley/Cycle.antt =====
-- The cycle of the Copley adapter: `step`, `_refresh` and the rest of `__init__` of
-- src/functional_model/cia402_drive/adapter/copley.py.
use ethercat_device_simulato.Prelude.{
  ℕ, zero, suc, ◌-◌, ℤ, pos, negsuc, Bool, ◌&&◌, none, some, List, [], ◌∷◌, if◌then◌else◌, ◌==◌,
  bit_and, bit_or, and_ℤ,
}
use ethercat_device_simulato.Exec.{
  device_rejected, value_error, other, Result, ok, err, Exec, pure, lift, gets, modify, check, when,
  ◌>>=◌, ◌>>◌,
}
use ethercat_device_simulato.Text.{Text, codes}
use ethercat_device_simulato.Value.{Value, int}
use ethercat_device_simulato.Numbers.{Numbers}
use ethercat_device_simulato.Od.{read, write_internal}
use ethercat_device_simulato.Fmi.{
  Native, Input, is_finite, number, truth, step as step_fmu, close as close_runner,
}
use ethercat_device_simulato.Copley.{
  Copley, on_od, on_runner, reading, validate, read_value, get_named, set_named,
}

-- The fuel of `step`: `dt` is at most 0.1 s and less than a period is left over, which makes 51 rounds.
abbrev pub max_rounds : ℕ
max_rounds = 64

module _ {F N : Type 0} (finite : F → Bool) (native : Native F N) (nums : Numbers (Value F))
    (round : Value F → Result ℤ) where
  -- `self.od.read(0x6040)` as the operand of `&`
  unfoldable pub controlword : Exec (Copley F N) ℤ
  unfolding read_value
  controlword = do v ← read_value 0x6040; lift (nums.to_index v)

  -- `v & ~0x0100`
  unfoldable pub without_halt : ℤ → ℤ
  without_halt (pos n) = pos (n - bit_and n 0x0100)
  without_halt (negsuc n) = negsuc (bit_or n 0x0100)

  -- The test of an injected fault.
  unfoldable pub check_fault : Exec (Copley F N) (Unit {0})
  unfolding controlword
  check_fault s =
      when s.fault (do word ← controlword; check (and_ℤ word 0x80 == 0) device_rejected) s

  -- `self._validate(index, self.od.read(index))`
  unfoldable pub validate_object : ℕ → Exec (Copley F N) (Unit {0})
  unfolding validate read_value
  validate_object index = do v ← read_value index; validate nums index v

  -- `step` from the test of the accelerations to the end of the loop over the indices. The value is the acceleration.
  unfoldable pub check_objects : Exec (Copley F N) (Value F)
  unfolding read_value validate_object
  check_objects = do
    acceleration ← read_value 0x6083
    deceleration ← read_value 0x6084
    check (nums.eq acceleration deceleration) device_rejected
    validate_object 0x6040
    validate_object 0x6060
    validate_object 0x6081
    validate_object 0x6083
    validate_object 0x6084
    pure acceleration

  -- `values`
  unfoldable pub step_inputs : Value F → Exec (Copley F N) (List (Text × Input F))
  unfolding controlword read_value without_halt
  step_inputs acceleration = do
    word ← controlword
    mode ← read_value 0x6060
    target ← read_value 0x607a
    velocity ← read_value 0x6081
    gets (λ s.
        (codes "ControlWord", number (int (without_halt word)))
        ∷ (codes "ModesOfOp", number mode)
        ∷ (codes "TargetPosition", number target)
        ∷ (codes "TargetVelocity", number (int (pos 0)))
        ∷ (codes "TargetTorque", number (int (pos 0)))
        ∷ (codes "FaultInject", truth s.fault)
        ∷ (codes "ProfileVelocity", number (nums.mul velocity s.velocity_factor))
        ∷ (codes "ProfileAcceleration", number (nums.mul acceleration s.acceleration_factor))
        ∷ [])

  unfoldable pub set_all : List (Text × Input F) → Exec (Copley F N) (Unit {0})
  unfolding set_named
  set_all [] = pure tt
  set_all ((name, value) ∷ rest) = do set_named finite native name value; set_all rest

  -- `STEP_SECONDS`
  abbrev pub step_seconds : Value F
  step_seconds = nums.decimal 2 3

  abbrev pub zero_time : Value F
  zero_time = nums.decimal 0 0

  -- `self._remainder + 1e-12 >= STEP_SECONDS`
  unfoldable pub is_due : Value F → Bool
  is_due left = nums.le step_seconds (nums.add left (nums.decimal 1 12))

  -- `max(0.0, self._remainder - STEP_SECONDS)`
  unfoldable pub drain : Value F → Value F
  drain left =
      let rest = nums.sub left step_seconds in if nums.lt zero_time rest then rest else zero_time

  -- The `while` loop. The fuel bounds its rounds: a loop that is not done with them raises `other`.
  unfoldable pub run_steps : ℕ → Exec (Copley F N) (Unit {0})
  unfolding is_due drain
  run_steps zero s = if is_due s.remainder then (err other, s) else (ok tt, s)
  run_steps (suc fuel) s =
      let rest =
        (do
          on_runner (step_fmu finite native nums step_seconds)
          modify (λ s. record s { remainder = drain s.remainder })
          run_steps fuel)
          s in
      if is_due s.remainder then rest else (ok tt, s)

  -- `write_internal(index, value)`
  unfoldable pub publish : ℕ → Value F → Exec (Copley F N) (Unit {0})
  publish index v = on_od (write_internal index v none)

  unfoldable pub publish_named : ℕ → Text → Exec (Copley F N) (Unit {0})
  unfolding get_named publish
  publish_named index name = do v ← get_named finite native name; publish index v

  -- `v | 0x8000`
  unfoldable pub with_referenced : ℤ → ℤ
  with_referenced (pos n) = pos (bit_or n 0x8000)
  with_referenced (negsuc n) = negsuc (n - bit_and n 0x8000)

  -- `_refresh()`
  unfoldable pub refresh : Exec (Copley F N) (Unit {0})
  unfolding get_named publish publish_named with_referenced
  refresh = do
    status ← get_named finite native (codes "StatusWord")
    word ← lift (nums.to_index status)
    publish 0x6041 (int (with_referenced word))
    publish_named 0x6061 (codes "ModesDisplay")
    publish_named 0x6064 (codes "ActualPosition")
    publish_named 0x6077 (codes "TorqueActual")
    velocity ← get_named finite native (codes "ActualVelocity")
    factor ← gets (λ s. s.velocity_factor)
    scaled ← lift (nums.div (nums.mul velocity (nums.decimal 1 1)) factor)
    rounded ← lift (round scaled)
    publish 0x606c (int rounded)

  -- `step(dt)`
  unfoldable pub step : Value F → Exec (Copley F N) (Unit {0})
  unfolding is_finite check_fault check_objects step_inputs set_all run_steps refresh
  step dt = do
    check (is_finite finite (number dt) && nums.lt zero_time dt && nums.le dt (nums.decimal 1 1))
        value_error
    check_fault
    acceleration ← check_objects
    values ← step_inputs acceleration
    set_all values
    modify (λ s. record s { remainder = nums.add s.remainder dt })
    run_steps max_rounds
    refresh

  -- `close()`
  unfoldable pub close : Exec (Copley F N) (Unit {0})
  close = on_runner (close_runner finite native)

  -- `10.0 ** (-abs(self.od.read(0x2194, sub)))`
  unfoldable pub unit_scale : ℕ → Exec (Copley F N) (Value F)
  unit_scale sub = do
    v ← reading (read 0x2194 (some sub))
    exponent ← lift (nums.to_int (nums.neg (nums.abs v)))
    pure (nums.power_of_ten exponent)

  unfoldable pub rounded_parameter : Text → (Copley F N → Value F) → Exec (Copley F N) (Value F)
  unfolding get_named
  rounded_parameter name get_factor = do
    v ← get_named finite native name
    factor ← gets get_factor
    quotient ← lift (nums.div v factor)
    n ← lift (round quotient)
    pure (int n)

  -- `__init__` after the Object Dictionary and the bridge are made.
  unfoldable pub initialize : Exec (Copley F N) (Unit {0})
  unfolding publish unit_scale rounded_parameter refresh
  initialize = do
    publish 0x6060 (int (pos 1))
    publish 0x6061 (int (pos 1))
    velocity_unit ← unit_scale 2
    position_unit ← unit_scale 1
    velocity_factor ← lift (nums.div velocity_unit position_unit)
    modify (λ s. record s { velocity_factor = velocity_factor })
    acceleration_unit ← unit_scale 3
    position_unit' ← unit_scale 1
    acceleration_factor ← lift (nums.div acceleration_unit position_unit')
    modify (λ s. record s { acceleration_factor = acceleration_factor })
    velocity ← rounded_parameter (codes "ProfileVelocity") (λ s. s.velocity_factor)
    publish 0x6081 velocity
    acceleration ← rounded_parameter (codes "ProfileAcceleration") (λ s. s.acceleration_factor)
    publish 0x6083 acceleration
    publish 0x6084 acceleration
    refresh
