-- ===== src/Axis/Dispatch/Isolation.antt =====
-- What the requests of src/functional_model/runtime/axis.py do on a faulted axis, and their answers.
use ethercat_device_simulato.Prelude.{
  ℕ, ◌≡◌, refl, ◌∙◌, arith, Bool, true, false, Option, none, some, List, [], ◌∷◌,
}
use ethercat_device_simulato.Exec.{Result, ok, err, ◌>>=◌}
use ethercat_device_simulato.Fault.{AxisFault, FaultResponse, detect, response}
use ethercat_device_simulato.Fault.Invariant.{IsGuard}
use ethercat_device_simulato.Fault.Exchange.{failed}
use ethercat_device_simulato.Fault.Recovery.{prepare_latched, prepare-last}
use ethercat_device_simulato.Axis.{
  Device, Model, Hex, Request, describe, idle, unknown, read, write, cycle, Response, faulted,
  fromhex, access_model,
}
use ethercat_device_simulato.Axis.Dispatch.{
  Attempt, returned, completed, conclude, reply, attempt_cycle, attempt_idle, with_prepared,
  withhold, access, guarded_access, unless_restart, read_guarded, dispatch,
}
use ethercat_device_simulato.Axis.Dispatch.Guarding.{dispatch-IsGuard}

-- The requests that the EtherCAT cycle makes.
abbrev pub is_cyclic : Request → Bool
is_cyclic (cycle hex) = true
is_cyclic idle = true
is_cyclic _ = false

abbrev pub answered : {X : Type 0} → Result X → Bool
answered (ok x) = true
answered (err e) = false

module _ {A D : Type 0} (device : Device A D) where
  conclude_answers :
      (wall : ℕ) (r : Result Attempt) (m : Model A D)
      → answered (conclude device wall (r, m)).0 ≡ true
  unfolding conclude reply failed detect
  conclude_answers wall (ok (returned r)) m = refl
  conclude_answers wall (ok (completed r)) m = ground arith
  conclude_answers wall (err e) m = ground arith

  -- No exception of a cycle or idle request leaves the axis.
  pub cyclic_answers :
      (wall mono : ℕ) (request : Request) (m : Model A D)
      → is_cyclic request ≡ true
      → answered (dispatch device wall mono request m).0 ≡ true
  unfolding dispatch
  cyclic_answers wall mono (cycle hex) m h =
      conclude_answers wall (attempt_cycle device wall mono hex m).0
        (attempt_cycle device wall mono hex m).1
  cyclic_answers wall mono idle m h =
      conclude_answers wall (attempt_idle device wall m).0 (attempt_idle device wall m).1
  cyclic_answers wall mono (read index sub) m h = cc
  cyclic_answers wall mono (write index sub hex) m h = cc
  cyclic_answers wall mono describe m h = cc
  cyclic_answers wall mono unknown m h = cc

-- The fault feedback of an answer
abbrev pub feedback_of : Result Response → Option FaultResponse
feedback_of (ok (faulted r cycles)) = some r
feedback_of _ = none

-- What a cycle or idle request is answered, given its answer; other requests have none.
abbrev pub cyclic_feedback : Request → Result Response → Option FaultResponse
cyclic_feedback (cycle hex) out = feedback_of out
cyclic_feedback idle out = feedback_of out
cyclic_feedback _ out = none

abbrev pub cyclic_response : Request → AxisFault → Option FaultResponse
cyclic_response (cycle hex) g = some (response g)
cyclic_response idle g = some (response g)
cyclic_response _ g = none

-- What a request leaves alone, and answers, on an axis that needs a restart.
pub record Latched {A D : Type 0} (request : Request) (m : Model A D)
    (out : Result Response × Model A D) : Type 0 where
  pub adapter : out.1.adapter ≡ m.adapter
  pub disk : out.1.disk ≡ m.disk
  pub restart : out.1.guard.restart_required ≡ true
  pub last : out.1.guard.last ≡ m.guard.last
  pub cyclic : cyclic_feedback request out.0 ≡ cyclic_response request out.1.guard

module _ {A D : Type 0} (device : Device A D) where
  cycle-Latched :
      (wall mono : ℕ) (hex : Hex) (m : Model A D)
      → IsGuard m.guard
      → m.guard.restart_required ≡ true
      → Latched (cycle hex) m (dispatch device wall mono (cycle hex) m)
  unfolding dispatch conclude reply failed detect attempt_cycle with_prepared withhold fromhex ◌>>=◌
  cycle-Latched wall mono none m g h = ground arith
  cycle-Latched wall mono (some bytes) m g h =
      ground (arith, prepare_latched wall bytes m.guard, prepare-last wall bytes m.guard)

  idle-Latched :
      (wall mono : ℕ) (m : Model A D)
      → IsGuard m.guard
      → m.guard.restart_required ≡ true
      → Latched idle m (dispatch device wall mono idle m)
  unfolding dispatch conclude attempt_idle withhold ◌>>=◌
  idle-Latched wall mono m g h = ground arith

  read-Latched :
      (wall mono index sub : ℕ) (m : Model A D)
      → m.guard.restart_required ≡ true
      → Latched (read index sub) m (dispatch device wall mono (read index sub) m)
  unfolding dispatch read_guarded unless_restart
  read-Latched wall mono index sub m h = ground arith

  write-Latched :
      (wall mono index sub : ℕ) (hex : Hex) (m : Model A D)
      → m.guard.restart_required ≡ true
      → Latched (write index sub hex) m (dispatch device wall mono (write index sub hex) m)
  unfolding dispatch unless_restart
  write-Latched wall mono index sub hex m h = ground arith

  describe-Latched :
      (wall mono : ℕ) (m : Model A D)
      → m.guard.restart_required ≡ true
      → Latched describe m (dispatch device wall mono describe m)
  unfolding dispatch access access_model guarded_access
  describe-Latched wall mono m h = ground arith

  unknown-Latched :
      (wall mono : ℕ) (m : Model A D)
      → m.guard.restart_required ≡ true
      → Latched unknown m (dispatch device wall mono unknown m)
  unfolding dispatch access access_model guarded_access
  unknown-Latched wall mono m h = ground arith

  -- A request on an axis that needs a restart.
  pub dispatch-Latched :
      (wall mono : ℕ) (request : Request) (m : Model A D)
      → IsGuard m.guard
      → m.guard.restart_required ≡ true
      → Latched request m (dispatch device wall mono request m)
  dispatch-Latched wall mono describe m g h = describe-Latched wall mono m h
  dispatch-Latched wall mono idle m g h = idle-Latched wall mono m g h
  dispatch-Latched wall mono unknown m g h = unknown-Latched wall mono m h
  dispatch-Latched wall mono (read index sub) m g h = read-Latched wall mono index sub m h
  dispatch-Latched wall mono (write index sub hex) m g h = write-Latched wall mono index sub hex m h
  dispatch-Latched wall mono (cycle hex) m g h = cycle-Latched wall mono hex m g h

  -- Requests, each with its two clocks, one after the other; replies are dropped.
  pub serve : List (ℕ × ℕ × Request) → Model A D → Model A D
  serve [] m = m
  serve ((wall, mono, request) ∷ rest) m = serve rest (dispatch device wall mono request m).1

  pub serve-last :
      (requests : List (ℕ × ℕ × Request)) (m : Model A D)
      → IsGuard m.guard
      → m.guard.restart_required ≡ true
      → (serve requests m).guard.last ≡ m.guard.last
  unfolding serve
  serve-last [] m g h = refl
  serve-last ((wall, mono, request) ∷ rest) m g h =
      let step = dispatch-Latched wall mono request m g h in
      serve-last rest (dispatch device wall mono request m).1
        (dispatch-IsGuard device wall mono request m g) step.restart
      ∙ step.last

  -- A restart is required for good: over any sequence of requests the adapter, the store and the mark
  -- itself stay as they are. Only a new process clears it.
  pub serve_latched :
      (requests : List (ℕ × ℕ × Request)) (m : Model A D)
      → IsGuard m.guard
      → m.guard.restart_required ≡ true
      → ((serve requests m).adapter ≡ m.adapter)
        × ((serve requests m).disk ≡ m.disk)
        × ((serve requests m).guard.restart_required ≡ true)
  unfolding serve
  serve_latched [] m g h = (refl, refl, h)
  serve_latched ((wall, mono, request) ∷ rest) m g h =
      let step = dispatch-Latched wall mono request m g h in
      let next = (dispatch device wall mono request m).1 in
      let later =
        serve_latched rest next (dispatch-IsGuard device wall mono request m g) step.restart in
      (later.0 ∙ step.adapter, later.1 ∙ step.disk, later.2)

  -- Over any sequence of requests the guard stays well formed.
  pub serve-IsGuard :
      (requests : List (ℕ × ℕ × Request)) (m : Model A D)
      → IsGuard m.guard
      → IsGuard (serve requests m).guard
  unfolding serve
  serve-IsGuard [] m g = g
  serve-IsGuard ((wall, mono, request) ∷ rest) m g =
      serve-IsGuard rest (dispatch device wall mono request m).1
        (dispatch-IsGuard device wall mono request m g)
