-- ===== src/Copley.antt =====
-- The adapter of the Copley FMU: `CopleyAdapter` of src/functional_model/cia402_drive/adapter/copley.py over
-- `Fmi3Runner`. Its times are values of Python's arithmetic, a parameter.
pub mod Cycle
pub mod Adapter
pub mod Clock
pub mod Steps
mod Tests
use ethercat_device_simulato.Prelude.{
  ℕ, zero, suc, ◌+◌, ◌-◌, ◌/◌, ℤ, pos, negsuc, Bool, true, false, not, ◌&&◌, ◌||◌, Option, none,
  some, List, [], ◌∷◌, if◌then◌else◌, ltb, leb, ◌==◌, eqb_ℤ, bit_and, bit_or, and_ℤ, length, take,
  drop,
}
use ethercat_device_simulato.Exec.{
  Error, device_rejected, value_error, key_error, Result, ok, err, then_do, Exec, pure, raise, lift,
  gets, modify, check, when, on_part, ◌>>=◌, ◌>>◌,
}
use ethercat_device_simulato.Text.{Text, codes}
use ethercat_device_simulato.Value.{Value, int}
use ethercat_device_simulato.Codec.{Floats, decode}
use ethercat_device_simulato.Numbers.{Numbers}
use ethercat_device_simulato.Od.{
  Key, part, whole, Dict, lookup, OdModel, definition, read, write_internal,
}
use ethercat_device_simulato.Bridge.{
  PdoEntry, byte_length, read_sdo, write_sdo as bridge_write_sdo, rxpdo_payload_to_od,
  od_to_txpdo_payload,
}
use ethercat_device_simulato.FKrCmmt.{total_length}
use ethercat_device_simulato.Fmi.{
  Native, Runner, Input, number, truth, set as set_variable, get as get_variable, step as step_fmu,
  close as close_runner,
}

-- `CopleyAdapter`; `runner` is the FMU.
pub record Copley (F N : Type 0) : Type 0 where
  pub od : OdModel F
  pub runner : Runner F N
  pub remainder : Value F
  pub fault : Bool
  pub velocity_factor : Value F
  pub acceleration_factor : Value F

-- `WRITABLE`
unfoldable pub is_writable_address : ℕ → ℕ → Bool
is_writable_address index sub =
    (sub == 0
      && (index == 0x6040
          || index == 0x6060
          || index == 0x607a
          || index == 0x6081
          || index == 0x6083
          || index == 0x6084))
    || (index == 0x2005 && (sub == 1 || sub == 3))
    || (index == 0x2000 && sub == 1)

unfoldable pub is_profile_parameter : ℕ → Bool
is_profile_parameter index = index == 0x6081 || index == 0x6083 || index == 0x6084

-- The inputs that PP does not use.
unfoldable pub is_foreign_input : ℕ → Bool
is_foreign_input index = index == 0x60ff || index == 0x6071 || index == 0x60b1 || index == 0x60b2

module _ {F : Type 0} (nums : Numbers (Value F)) where
  abbrev zero_value : Value F
  zero_value = nums.of_int (pos 0)

  -- `value <= 0`
  unfoldable pub is_positive : Value F → Bool
  is_positive v = not (nums.le v zero_value)

  -- `values[key]`
  unfoldable pub value_at : Key → Dict (Value F) → Result (Value F)
  value_at key values = elim (lookup key values) [ none ↦ err key_error | some v ↦ ok v ]

  unfoldable pub demand : Bool → Error → Result (Unit {0})
  demand true e = ok tt
  demand false e = err e

  -- `validate_parameters(values)`
  unfoldable pub validate_parameters : Dict (Value F) → Result (Unit {0})
  unfolding value_at demand is_positive
  validate_parameters values = then_do (value_at (whole 0x6081) values) (λ velocity.
      then_do (demand (is_positive velocity) value_error) (λ _.
        then_do (value_at (whole 0x6083) values) (λ acceleration.
          then_do (demand (is_positive acceleration) value_error) (λ _.
            then_do (value_at (whole 0x6084) values) (λ deceleration.
              then_do (demand (is_positive deceleration) value_error)
                (λ _. demand (nums.eq acceleration deceleration) value_error))))))

  -- `_validate(index, value)`
  unfoldable pub validate : {S : Type 0} → ℕ → Value F → Exec S (Unit {0})
  unfolding is_profile_parameter is_positive
  validate index v = do
    check (not (index == 0x6060) || nums.eq v zero_value || nums.eq v (nums.of_int (pos 1)))
        device_rejected
    check (not (is_profile_parameter index) || is_positive v) device_rejected

module _ {F N : Type 0} where
  abbrev pub on_od : {X : Type 0} → Exec (OdModel F) X → Exec (Copley F N) X
  on_od = on_part (λ (s : Copley F N). s.od) (λ od s. record s { od = od })

  abbrev pub on_runner : {X : Type 0} → Exec (Runner F N) X → Exec (Copley F N) X
  on_runner = on_part (λ (s : Copley F N). s.runner) (λ r s. record s { runner = r })

  abbrev pub reading : {X : Type 0} → (OdModel F → Result X) → Exec (Copley F N) X
  reading f s = (f s.od, s)

  -- `self.od.read(index)`
  unfoldable pub read_value : ℕ → Exec (Copley F N) (Value F)
  read_value index = reading (read index none)

module _ {F N : Type 0} (finite : F → Bool) (native : Native F N) where
  unfoldable pub get_named : Text → Exec (Copley F N) (Value F)
  get_named name = on_runner (get_variable finite native name)

  unfoldable pub set_named : Text → Input F → Exec (Copley F N) (Unit {0})
  set_named name value = on_runner (set_variable finite native name value)

module _ {F N : Type 0} (floats : Floats F) (nums : Numbers (Value F)) (rx : List PdoEntry) where
  -- `write_sdo(index, subindex, payload)`
  unfoldable pub write_sdo : ℕ → ℕ → List ℕ → Exec (Copley F N) (Unit {0})
  unfolding is_writable_address validate
  write_sdo index sub payload = do
    check (is_writable_address index sub) device_rejected
    d ← reading (definition index (some sub))
    check (length payload == d.bit_size / 8) value_error
    v ← lift (decode floats d.data_type payload)
    check (not (index == 0x2000 && sub == 1) || nums.eq v (nums.of_int (pos 0))) device_rejected
    validate nums index v
    on_od (bridge_write_sdo floats index sub payload)

  -- The loop of `apply_outputs`, from `offset`
  unfoldable pub validate_outputs : List PdoEntry → ℕ → List ℕ → Exec (Copley F N) (Unit {0})
  unfolding validate is_foreign_input
  validate_outputs [] offset payload = pure tt
  validate_outputs (e ∷ es) offset payload = do
    n ← lift (byte_length e)
    when (not (e.index == 0)) do
      v ← lift (decode floats e.data_type (take n (drop offset payload)))
      validate nums e.index v
      check (not (is_foreign_input e.index) || nums.eq v (nums.of_int (pos 0))) device_rejected
    validate_outputs es (offset + n) payload

  -- `apply_outputs(payload)`
  unfoldable pub apply_outputs : List ℕ → Exec (Copley F N) (Unit {0})
  unfolding validate_outputs total_length
  apply_outputs payload = do
    expected ← lift (total_length rx)
    check (length payload == expected) value_error
    validate_outputs rx 0 payload
    on_od (rxpdo_payload_to_od floats rx payload)

  -- `inject_fault(active)`
  unfoldable pub inject_fault : Bool → Copley F N → Copley F N
  inject_fault active s = record s { fault = active }

  -- `read_inputs()`
  unfoldable pub read_inputs : List PdoEntry → Exec (Copley F N) (List ℕ)
  read_inputs tx = reading (od_to_txpdo_payload floats tx)
