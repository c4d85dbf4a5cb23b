-- ===== src/Fleet.antt =====
-- The axes of one process and the answers of the IPC service: `ModelFleet.dispatch` of
-- src/functional_model/runtime/fleet.py and `dispatch_request` of src/functional_model/ipc/server.py.
pub mod Isolation
pub mod Snapshots
mod Tests
use ethercat_device_simulato.Prelude.{
  ℕ, zero, suc, ℤ, pos, negsuc, Option, none, some, List, [], ◌∷◌,
}
use ethercat_device_simulato.Exec.{
  Error, device_rejected, sdo_object_not_found, key_error, value_error, os_error, Result, ok, err,
  Exec,
}
use ethercat_device_simulato.Axis.{
  Device, Model, Request, describe, read, write, Response, described,
}
use ethercat_device_simulato.Axis.Dispatch.{dispatch as axis_dispatch}

-- An answer of the service: what the fleet returns, or an SDO abort with its code.
pub data Reply : Type 0 where
  answer : Response → Reply
  abort : ℕ → Reply

-- `code` of `dispatch_request`; `none` is an exception that it does not catch.
unfoldable pub abort_code : Error → Option ℕ
abort_code device_rejected = some 0x06010000
abort_code sdo_object_not_found = some 0x06020000
abort_code key_error = some 0x06020000
abort_code value_error = some 0x06090030
abort_code os_error = some 0x08000020
abort_code _ = none

-- `self.models`
abbrev pub Models : Type 0 → Type 0 → Type 0
Models A D = List (Device A D × Model A (Unit {0}))

-- `ModelFleet`: the disk of the one store that all models share, and `self.models`.
pub record Fleet (A D : Type 0) : Type 0 where
  pub disk : D
  pub models : Models A D

-- The model with the shared disk in its hands.
pub with_disk : {A D E : Type 0} → D → Model A E → Model A D
with_disk disk m = record {
  adapter = m.adapter;
  disk = disk;
  guard = m.guard;
  last_cycle = m.last_cycle;
  cycles = m.cycles;
  save_diagnostic = m.save_diagnostic;
}

caught : Option ℕ → Error → Result Reply
caught none e = err e
caught (some code) e = ok (abort code)

abort_answer : Result Response → Result Reply
unfolding caught
abort_answer (ok r) = ok (answer r)
abort_answer (err e) = caught (abort_code e) e

plain_answer : Result Response → Result Reply
plain_answer (ok r) = ok (answer r)
plain_answer (err e) = err e

replied : Request → Result Response → Result Reply
unfolding abort_answer plain_answer
replied (read index sub) r = abort_answer r
replied (write index sub hex) r = abort_answer r
replied request r = plain_answer r

module _ {A D : Type 0} where
  -- `self.models[index].dispatch(request)` of an index that is not negative, or `ValueError`. The disk goes
  -- to the model and comes back.
  unfoldable pub dispatch_at :
      ℕ → ℕ → ℕ → Request → D → Models A D → Result Response × (D × Models A D)
  unfolding with_disk
  dispatch_at wall mono i request disk [] = (err value_error, (disk, []))
  dispatch_at wall mono zero request disk ((device, m) ∷ models) =
      let (r, m') = axis_dispatch device wall mono request (with_disk disk m) in
      (r, (m'.disk, (device, with_disk tt m') ∷ models))
  dispatch_at wall mono (suc i) request disk (x ∷ models) =
      let out = dispatch_at wall mono i request disk models in (out.0, (out.1.0, x ∷ out.1.1))

  at_index : ℕ → ℕ → Option ℤ → Request → Exec (Fleet A D) Response
  unfolding dispatch_at
  at_index wall mono (some (pos i)) request fleet =
      let out = dispatch_at wall mono i request fleet.disk fleet.models in
      (out.0, record { disk = out.1.0; models = out.1.1 })
  at_index wall mono _ request fleet = (err value_error, fleet)

  -- `dispatch(request)`; the index is `none` where it is missing or no `int`.
  unfoldable pub dispatch : ℕ → ℕ → Option ℤ → Request → Exec (Fleet A D) Response
  unfolding at_index
  dispatch wall mono index describe fleet = (ok described, fleet)
  dispatch wall mono index request fleet = at_index wall mono index request fleet

  -- `dispatch_request(model, request)`
  unfoldable pub dispatch_request : ℕ → ℕ → Option ℤ → Request → Exec (Fleet A D) Reply
  unfolding replied
  dispatch_request wall mono index request fleet =
      let (r, fleet') = dispatch wall mono index request fleet in (replied request r, fleet')
