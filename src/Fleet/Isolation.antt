-- ===== src/Fleet/Isolation.antt =====
-- What a request to one slave does to the fleet of src/functional_model/runtime/fleet.py.
use ethercat_device_simulato.Prelude.{
  ℕ, zero, suc, pos, ◌≡◌, ◌≢◌, refl, ap, sym, subst, arith, true, ◌||◌, some, [], ◌∷◌, get_elem?,
}
use ethercat_device_simulato.Exec.{Result, ok, err}
use ethercat_device_simulato.Axis.{
  Device, Model, Request, describe, read, write, cycle, idle, unknown, Response,
}
use ethercat_device_simulato.Axis.Dispatch.{dispatch as axis_dispatch}
use ethercat_device_simulato.Axis.Dispatch.Errors.{is_sdo, Answerable, sdo-Answerable}
use ethercat_device_simulato.Axis.Dispatch.Store.{StoreKeeps, dispatch-disk}
use ethercat_device_simulato.Axis.Dispatch.Isolation.{is_cyclic, answered, cyclic_answers}
use ethercat_device_simulato.Fleet.{
  Fleet, Models, with_disk, abort_code, dispatch_at, at_index, dispatch, caught, abort_answer,
  plain_answer, replied, dispatch_request,
}

abort_answers : (r : Result Response) → Answerable r → answered (abort_answer r) ≡ true
unfolding abort_answer caught abort_code
abort_answers (ok x) h = refl
abort_answers (err e) h = ground (arith, h e refl)

plain_answers : (r : Result Response) → answered r ≡ true → answered (plain_answer r) ≡ true
unfolding plain_answer
plain_answers (ok x) h = refl
plain_answers (err e) h = cc

module _ {A D : Type 0} where
  dispatch_at-others :
      (wall mono i j : ℕ) (request : Request) (disk : D) (models : Models A D)
      → j ≢ i
      → get_elem? (dispatch_at wall mono i request disk models).1.1 j ≡ get_elem? models j
  unfolding dispatch_at
  dispatch_at-others wall mono i j request disk [] h = refl
  dispatch_at-others wall mono zero zero request disk (x ∷ models) h = ground arith
  dispatch_at-others wall mono zero (suc j) request disk (x ∷ models) h = refl
  dispatch_at-others wall mono (suc i) zero request disk (x ∷ models) h = refl
  dispatch_at-others wall mono (suc i) (suc j) request disk (x ∷ models) h =
      dispatch_at-others wall mono i j request disk models (λ e. h (ap suc e))

  dispatch_at-own :
      (wall mono i : ℕ) (request : Request) (disk : D) (models : Models A D) (device : Device A D)
      (m : Model A (Unit {0}))
      → get_elem? models i ≡ some (device, m)
      → ((dispatch_at wall mono i request disk models).0
          ≡ (axis_dispatch device wall mono request (with_disk disk m)).0)
        × ((dispatch_at wall mono i request disk models).1.0
            ≡ (axis_dispatch device wall mono request (with_disk disk m)).1.disk)
  unfolding dispatch_at
  dispatch_at-own wall mono i request disk [] device m h = cc
  dispatch_at-own wall mono zero request disk (x ∷ models) device m h = ground arith
  dispatch_at-own wall mono (suc i) request disk (x ∷ models) device m h =
      dispatch_at-own wall mono i request disk models device m h

  dispatch_at-disk :
      (P : D → Type 0) (wall mono i : ℕ) (request : Request) (disk : D) (models : Models A D)
      (device : Device A D) (m : Model A (Unit {0}))
      → get_elem? models i ≡ some (device, m)
      → StoreKeeps P device.store
      → P disk
      → P (dispatch_at wall mono i request disk models).1.0
  unfolding with_disk
  dispatch_at-disk P wall mono i request disk models device m h keeps p =
      subst P (sym (dispatch_at-own wall mono i request disk models device m h).1)
        (dispatch-disk device P keeps wall mono request (with_disk disk m) p)

  at_index-isolated :
      (P : D → Type 0) (wall mono i j : ℕ) (request : Request) (fleet : Fleet A D)
      (device : Device A D) (m : Model A (Unit {0}))
      → get_elem? fleet.models i ≡ some (device, m)
      → StoreKeeps P device.store
      → j ≢ i
      → P fleet.disk
      → (get_elem? (at_index wall mono (some (pos i)) request fleet).1.models j
          ≡ get_elem? fleet.models j)
        × P (at_index wall mono (some (pos i)) request fleet).1.disk
  unfolding at_index
  at_index-isolated P wall mono i j request fleet device m h keeps differs p = (
    dispatch_at-others wall mono i j request fleet.disk fleet.models differs,
    dispatch_at-disk P wall mono i request fleet.disk fleet.models device m h keeps p,
  )

  -- A request to slave `i`: the other axes, and what its save keeps of the shared disk.
  pub dispatch_request-others :
      (P : D → Type 0) (wall mono i j : ℕ) (request : Request) (fleet : Fleet A D)
      (device : Device A D) (m : Model A (Unit {0}))
      → get_elem? fleet.models i ≡ some (device, m)
      → StoreKeeps P device.store
      → j ≢ i
      → P fleet.disk
      → (get_elem? (dispatch_request wall mono (some (pos i)) request fleet).1.models j
          ≡ get_elem? fleet.models j)
        × P (dispatch_request wall mono (some (pos i)) request fleet).1.disk
  unfolding dispatch_request dispatch
  dispatch_request-others P wall mono i j describe fleet device m h keeps differs p = (refl, p)
  dispatch_request-others P wall mono i j request fleet device m h keeps differs p =
      at_index-isolated P wall mono i j request fleet device m h keeps differs p

  -- Every read, write, cycle and idle request to an existing slave is answered, with a result or an SDO
  -- abort: no exception of the axis ends the service.
  pub dispatch_request_answers :
      (wall mono i : ℕ) (request : Request) (fleet : Fleet A D) (device : Device A D)
      (m : Model A (Unit {0}))
      → get_elem? fleet.models i ≡ some (device, m)
      → (is_sdo request || is_cyclic request) ≡ true
      → answered (dispatch_request wall mono (some (pos i)) request fleet).0 ≡ true
  unfolding dispatch_request dispatch at_index replied
  dispatch_request_answers wall mono i (read k s) fleet device m h e = abort_answers _ (
      subst Answerable
        (sym (dispatch_at-own wall mono i (read k s) fleet.disk fleet.models device m h).0)
        (sdo-Answerable device wall mono (read k s) (with_disk fleet.disk m) refl))
  dispatch_request_answers wall mono i (write k s x) fleet device m h e = abort_answers _ (
      subst Answerable
        (sym (dispatch_at-own wall mono i (write k s x) fleet.disk fleet.models device m h).0)
        (sdo-Answerable device wall mono (write k s x) (with_disk fleet.disk m) refl))
  dispatch_request_answers wall mono i (cycle x) fleet device m h e = plain_answers _ (
      subst (λ r. answered r ≡ true)
        (sym (dispatch_at-own wall mono i (cycle x) fleet.disk fleet.models device m h).0)
        (cyclic_answers device wall mono (cycle x) (with_disk fleet.disk m) refl))
  dispatch_request_answers wall mono i idle fleet device m h e = plain_answers _ (
      subst (λ r. answered r ≡ true)
        (sym (dispatch_at-own wall mono i idle fleet.disk fleet.models device m h).0)
        (cyclic_answers device wall mono idle (with_disk fleet.disk m) refl))
  dispatch_request_answers wall mono i describe fleet device m h e = cc
  dispatch_request_answers wall mono i unknown fleet device m h e = cc
