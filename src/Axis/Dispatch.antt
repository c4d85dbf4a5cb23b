-- ===== src/Axis/Dispatch.antt =====
-- `Model.dispatch` of src/functional_model/runtime/axis.py: the requests of one axis behind its guard.
pub mod Guarding
pub mod Isolation
pub mod Errors
pub mod Feedback
pub mod Store
use ethercat_device_simulato.Prelude.{
  ℕ, Bool, true, false, not, ◌&&◌, ◌||◌, Option, none, some, List, [], ◌∷◌, if◌then◌else◌, ◌==◌,
  length, take,
}
use ethercat_device_simulato.Exec.{
  Error, device_rejected, sdo_object_not_found, key_error, value_error, os_error, runtime_error,
  other, Result, ok, err, Exec, pure, raise, gets, modify, check, catching, when, ◌>>=◌, ◌>>◌,
}
use ethercat_device_simulato.Fault.{
  AxisFault, Phase, Diagnostic, Code, Prepared, exc, normal, axis_adapter_fault,
  axis_model_execution_failed, axis_model_output_invalid, detect, prepare, accept, response,
  with_controlword,
}
use ethercat_device_simulato.Fault.Invariant.{is_some}
use ethercat_device_simulato.Fault.Exchange.{failed}
use ethercat_device_simulato.Axis.{
  Device, Model, Hex, Request, describe, idle, unknown, read, write, cycle, Response, value, output,
  inputs, faulted, sdo_abort, fromhex, on_adapter, on_guard, forget_cycle, run_cycle, run_idle,
  access_model,
}

abbrev pub is_normal : Phase → Bool
is_normal normal = true
is_normal _ = false

abbrev is_adapter_fault : Option Diagnostic → Bool
is_adapter_fault none = false
is_adapter_fault (some d) = is_adapter_code d.code
  where
    is_adapter_code : Code → Bool
    is_adapter_code axis_adapter_fault = true
    is_adapter_code _ = false

-- The result of the `try` block: `return` from inside it, or `result`.
pub data Attempt : Type 0 where
  returned : Response → Attempt
  completed : Response → Attempt

-- `guard.phase == 'normal' and guard.fault is None`
abbrev pub is_clear : AxisFault → Bool
is_clear g = is_normal g.phase && not (is_some g.diagnosis)

-- `except` of the operations other than cycle and idle: what the program expects is raised again.
abbrev pub is_expected : Request → Error → Bool
is_expected request device_rejected = true
is_expected request sdo_object_not_found = true
is_expected request key_error = true
is_expected request value_error = true
is_expected (write index sub hex) os_error = index == 0x2005 && sub == 1
is_expected request e = false

module _ {A D : Type 0} (device : Device A D) where
  -- The rest of the first cycle of a reset: after a rejected payload the model may still be enabled,
  -- so it is stepped once with a zero controlword.
  disable_first : List ℕ → Exec (Model A D) (Unit {0})
  disable_first payload = do
    modify forget_cycle
    rejected ← gets (λ m. is_adapter_fault m.guard.diagnosis)
    when rejected do
      on_adapter (device.ops.apply_outputs (with_controlword 0 payload))
      on_adapter (device.ops.step 2000000)

  -- `guard.accept(...)` under its own `try`.
  accept_output : ℕ → List ℕ → Bool → Exec (Model A D) (Unit {0})
  accept_output wall bytes resetting = catching (on_guard (accept wall bytes resetting)) (λ e.
      modify (λ m.
        forget_cycle
          (record m { guard = detect wall axis_model_output_invalid (exc e) true m.guard })))

  -- `return guard.response()` from inside the `try` block.
  withhold : Exec (Model A D) Attempt
  withhold = do modify forget_cycle; gets (λ m. returned (faulted (response m.guard) none))

  idle_inputs : ℕ → Exec (Model A D) Attempt
  unfolding accept_output
  idle_inputs wall = do
    bytes ← run_idle device
    accept_output wall bytes false
    pure (completed (inputs bytes))

  -- The part of the `try` block below `prepare`.
  with_prepared : ℕ → ℕ → Prepared → Exec (Model A D) Attempt
  unfolding disable_first accept_output withhold
  with_prepared wall mono (none, resetting) = withhold
  with_prepared wall mono (some payload, resetting) = do
    when resetting (disable_first payload)
    bytes ← run_cycle device mono payload
    count ← gets (λ m. m.cycles)
    accept_output wall bytes resetting
    pure (completed (output bytes count))

  attempt_cycle : ℕ → ℕ → Hex → Exec (Model A D) Attempt
  unfolding with_prepared
  attempt_cycle wall mono hex = do
    payload ← fromhex hex
    check (length payload == device.rx_size) device_rejected
    prepared ← on_guard (prepare wall payload)
    with_prepared wall mono prepared

  attempt_idle : ℕ → Exec (Model A D) Attempt
  unfolding idle_inputs withhold
  attempt_idle wall = do
    normal_phase ← gets (λ m. is_normal m.guard.phase)
    if normal_phase then idle_inputs wall else withhold

  -- The lines below the `try` block; `none` is an unbound `result`.
  reply : Option Response → Exec (Model A D) Response
  reply none m =
      if is_clear m.guard
      then (err other, m)
      else (ok (faulted (response m.guard) (some m.cycles)), m)
  reply (some r) m =
      if is_clear m.guard then (ok r, m) else (ok (faulted (response m.guard) (some m.cycles)), m)

  -- The two outer `except` clauses, and what follows.
  conclude : ℕ → Result Attempt × Model A D → Result Response × Model A D
  unfolding reply
  conclude wall (ok (returned r), m) = (ok r, m)
  conclude wall (ok (completed r), m) = reply (some r) m
  conclude wall (err e, m) = reply none (forget_cycle (record m { guard = failed wall e m.guard }))

  guarded_access : ℕ → Request → Error → Exec (Model A D) Response
  guarded_access wall request e m = if is_expected request e then (err e, m) else (
    ok (sdo_abort 0x08000000),
    record m { guard = detect wall axis_model_execution_failed (exc e) true m.guard },
  )

  access : ℕ → Request → Exec (Model A D) Response
  unfolding guarded_access
  access wall request = catching (access_model device wall request) (guarded_access wall request)

  -- A read or write behind the two early returns.
  unless_restart : Exec (Model A D) Response → Exec (Model A D) Response
  unless_restart go m = if m.guard.restart_required then (ok (sdo_abort 0x08000022), m) else go m

  -- The projected statusword is answered by the guard in every phase but normal.
  read_guarded : ℕ → ℕ → ℕ → Exec (Model A D) Response
  unfolding unless_restart access
  read_guarded wall index sub m =
      if index == 0x6041 && sub == 0 && not (is_normal m.guard.phase)
      then (ok (value (take 2 (response m.guard).content)), m)
      else unless_restart (access wall (read index sub)) m

  -- `dispatch(request)`
  unfoldable pub dispatch : ℕ → ℕ → Request → Exec (Model A D) Response
  unfolding attempt_cycle attempt_idle conclude read_guarded access unless_restart
  dispatch wall mono (cycle hex) m = conclude wall (attempt_cycle wall mono hex m)
  dispatch wall mono idle m = conclude wall (attempt_idle wall m)
  dispatch wall mono (read index sub) m = read_guarded wall index sub m
  dispatch wall mono (write index sub hex) m = unless_restart (access wall (write index sub hex)) m
  dispatch wall mono describe m = access wall describe m
  dispatch wall mono unknown m = access wall unknown m
