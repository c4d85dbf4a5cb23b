-- ===== src/Axis.antt =====
-- One axis of the runtime, over any drive adapter: `Model.dispatch` and `Model._dispatch` of
-- src/functional_model/runtime/axis.py. `wall` is `time.time()` and `mono` `time.monotonic()` in
-- nanoseconds, each the same for the whole request. Timing statistics are left out: with them the
-- adapter is called in the same order.
pub mod Dispatch
pub mod Tests
use ethercat_device_simulato.Prelude.{
  ℕ, ◌+◌, ◌-◌, ◌/◌, Bool, true, false, not, ◌&&◌, ◌||◌, Option, none, some, List, [], ◌∷◌,
  if◌then◌else◌, ltb, ◌==◌, length, take,
}
use ethercat_device_simulato.Exec.{
  Error, device_rejected, sdo_object_not_found, key_error, value_error, os_error, runtime_error,
  other, Result, ok, err, Exec, pure, raise, lift, gets, modify, check, catching, on_part, ◌>>=◌,
  ◌>>◌,
}
use ethercat_device_simulato.Adapter.{DriveAdapter, Access, is_wo}
use ethercat_device_simulato.Description.{write_sdo}
use ethercat_device_simulato.Fault.{
  AxisFault, Phase, Diagnostic, Code, Detail, FaultResponse, Prepared, exc, alarm_level, normal,
  axis_adapter_fault, axis_model_execution_failed, axis_model_output_invalid, parameter_save_failed,
  no_context, detect, prepare, accept, response, with_controlword,
}
use ethercat_device_simulato.Fault.Invariant.{is_some}
use ethercat_device_simulato.Fault.Exchange.{failed}

-- One value of `self.entries`.
pub record Entry : Type 0 where
  pub bits : ℕ
  pub access : Access

-- What does not change after `__init__`: the adapter's methods, the layout sizes, `self.entries`, and
-- `self.store.save(self)` where a store is set, over the adapter and the disk.
pub record Device (A D : Type 0) : Type 0 where
  pub ops : DriveAdapter A
  pub slave_index : ℕ
  pub rx_size : ℕ
  pub entries : ℕ → ℕ → Option Entry
  pub store : Option (Exec (A × D) (Unit {0}))

-- `Model`. The disk is that of the one store of all axes; the axis that serves a request holds it, as the
-- fleet hands it over. `Model A Unit` is an axis that does not.
pub record Model (A D : Type 0) : Type 0 where
  pub adapter : A
  pub disk : D
  pub guard : AxisFault  -- `self.fault_state`
  pub last_cycle : Option ℕ
  pub cycles : ℕ
  pub save_diagnostic : Option Diagnostic

-- `bytes.fromhex(request['data'])`: `none` is a text that is not hexadecimal.
abbrev pub Hex : Type 0
Hex = Option (List ℕ)

pub data Request : Type 0 where
  describe idle unknown : Request
  read : ℕ → ℕ → Request
  write : ℕ → ℕ → Hex → Request
  cycle : Hex → Request

pub data Response : Type 0 where
  described written : Response
  value : List ℕ → Response
  output : List ℕ → ℕ → Response  -- data and cycles
  inputs : List ℕ → Response
  faulted : FaultResponse → Option ℕ → Response
  sdo_abort : ℕ → Response

pub fromhex : {S : Type 0} → Hex → Exec S (List ℕ)
fromhex none = raise value_error
fromhex (some bytes) = pure bytes

-- The diagnostic of a failed save: set once, until a save succeeds.
save_alarm : ℕ → ℕ → Error → Option Diagnostic → Option Diagnostic
save_alarm now axis e (some d) = some d
save_alarm now axis e none = some (record {
  code = parameter_save_failed;
  level = alarm_level;
  latching = false;
  axis = axis;
  detail = exc e;
  occurred_at = now;
  acknowledged_at = none;
  resolved_at = none;
  context = no_context;
})

-- `dt = 0.01 if self.last_cycle is None else now - self.last_cycle`
elapsed : ℕ → Option ℕ → ℕ
elapsed mono none = 10000000
elapsed mono (some last) = mono - last

module _ {A D : Type 0} where
  abbrev pub on_adapter : {X : Type 0} → Exec A X → Exec (Model A D) X
  on_adapter = on_part (λ (m : Model A D). m.adapter) (λ a m. record m { adapter = a })

  abbrev pub on_guard : {X : Type 0} → Exec AxisFault X → Exec (Model A D) X
  on_guard = on_part (λ (m : Model A D). m.guard) (λ g m. record m { guard = g })

  abbrev pub on_store : {X : Type 0} → Exec (A × D) X → Exec (Model A D) X
  on_store =
      on_part (λ (m : Model A D). (m.adapter, m.disk))
        (λ t m. record m { adapter = t.0; disk = t.1 })

  abbrev pub forget_cycle : Model A D → Model A D
  forget_cycle m = record m { last_cycle = none }

  after_save : ℕ → ℕ → Result (Unit {0}) × Model A D → Result (Unit {0}) × Model A D
  unfolding save_alarm
  after_save now axis (ok _, m) = (ok tt, record m { save_diagnostic = none })
  after_save now axis (err e, m) =
      (err os_error, record m { save_diagnostic = save_alarm now axis e m.save_diagnostic })

module _ {A D : Type 0} (device : Device A D) where
  abbrev ops : DriveAdapter A
  ops = device.ops

  -- The closure `save_parameters`.
  save_parameters : ℕ → Exec (A × D) (Unit {0}) → Exec (Model A D) (Unit {0})
  unfolding after_save
  save_parameters wall save m = after_save wall device.slave_index (on_store save m)

  -- `save = save_parameters if self.store else None`
  saver : ℕ → Option (Exec (A × D) (Unit {0})) → Option (Exec (Model A D) (Unit {0}))
  unfolding save_parameters
  saver wall none = none
  saver wall (some save) = some (save_parameters wall save)

  read_entry : ℕ → ℕ → Option Entry → Exec (Model A D) Response
  read_entry index sub none = raise key_error
  read_entry index sub (some e) =
      if is_wo e.access
      then raise value_error
      else do bytes ← on_adapter (ops.read_sdo index sub (e.bits / 8)); pure (value bytes)

  write_entry : ℕ → ℕ → ℕ → Hex → Option Entry → Exec (Model A D) Response
  unfolding saver
  write_entry wall index sub hex none = raise key_error
  write_entry wall index sub hex (some e) = do
    payload ← fromhex hex
    check (length payload == e.bits / 8) value_error
    write_sdo ops (λ m. m.adapter) (λ a m. record m { adapter = a }) index sub payload e.access
        (saver wall device.store)
    pure written

  -- `_dispatch` of a cycle.
  pub run_cycle : ℕ → List ℕ → Exec (Model A D) (List ℕ)
  unfolding elapsed
  run_cycle mono payload = do
    check (length payload == device.rx_size) value_error
    dt ← gets (λ m. elapsed mono m.last_cycle)
    check (not (ltb 100000000 dt)) runtime_error
    modify (λ m. record m { last_cycle = some mono })
    on_adapter (ops.apply_outputs payload)
    on_adapter (ops.step dt)
    result ← on_adapter ops.read_inputs
    modify (λ m. record m { cycles = m.cycles + 1 })
    pure result

  -- `_dispatch` of an idle request.
  pub run_idle : Exec (Model A D) (List ℕ)
  run_idle = do modify forget_cycle; on_adapter ops.read_inputs

  -- `_dispatch` of the operations other than cycle and idle.
  pub access_model : ℕ → Request → Exec (Model A D) Response
  unfolding read_entry write_entry
  access_model wall describe = pure described
  access_model wall (read index sub) = read_entry index sub (device.entries index sub)
  access_model wall (write index sub hex) =
      write_entry wall index sub hex (device.entries index sub)
  access_model wall _ = raise value_error
