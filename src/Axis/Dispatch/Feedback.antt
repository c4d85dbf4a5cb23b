-- ===== src/Axis/Dispatch/Feedback.antt =====
-- The fault feedback that src/functional_model/runtime/axis.py answers to the EtherCAT cycle, and its
-- statusword in SDO reads.
use ethercat_device_simulato.Prelude.{
  ℕ, ◌≡◌, sym, subst, arith, true, Option, Option-cases, inl, inr, none, some, List, [], ◌∷◌, take,
  bit_and, and_not, AllBytes,
}
use ethercat_device_simulato.Exec.{Result, ok}
use ethercat_device_simulato.Fault.{AxisFault, FaultResponse, response}
use ethercat_device_simulato.Fault.Invariant.{IsGuard, is_some}
use ethercat_device_simulato.Fault.Projection.{ShowsFault, response_faulty}
use ethercat_device_simulato.Fault.Recovery.{controlword}
use ethercat_device_simulato.Axis.{
  Device, Model, Request, describe, idle, unknown, read, write, cycle, Response, value,
}
use ethercat_device_simulato.Axis.Dispatch.{read_guarded, dispatch}
use ethercat_device_simulato.Axis.Dispatch.Guarding.{dispatch-IsGuard}
use ethercat_device_simulato.Axis.Dispatch.Isolation.{
  is_cyclic, feedback_of, cyclic_feedback, cyclic_response, dispatch-Latched, serve, serve-last,
  serve_latched, serve-IsGuard,
}

-- A fault feedback that demands a restart and shows the fault over the feedback `last`.
abbrev pub FaultFeedback : List ℕ → Option FaultResponse → Type 0
FaultFeedback last none = ⊥
FaultFeedback last (some r) = (r.restart_required ≡ true) × ShowsFault last r.content

-- Two bytes read, whose word is that of `last` with the fault bit alone of the bits 0x106f.
abbrev pub ShowsStatus : List ℕ → Result Response → Type 0
ShowsStatus last (ok (value bs)) =
    (bit_and (controlword bs) 0x106f ≡ 0x08)
    × (and_not (controlword bs) 0x106f ≡ and_not (controlword last) 0x106f)
ShowsStatus last _ = ⊥

diagnosed :
    (g : AxisFault)
    → IsGuard g
    → g.restart_required ≡ true
    → AllBytes g.last
    → FaultFeedback g.last (some (response g))
unfolding response
diagnosed g h r bytes = elim (Option-cases g.diagnosis) [
  | inl none_on_record ↦ ground arith
  | inr (d, e) ↦ (r, response_faulty g d e bytes)
]

as_cyclic :
    (request : Request) (r : Result Response) (g : AxisFault)
    → is_cyclic request ≡ true
    → cyclic_feedback request r ≡ cyclic_response request g
    → feedback_of r ≡ some (response g)
as_cyclic (cycle hex) r g c h = h
as_cyclic idle r g c h = h
as_cyclic (read index sub) r g c h = cc
as_cyclic (write index sub hex) r g c h = cc
as_cyclic describe r g c h = cc
as_cyclic unknown r g c h = cc

-- The word of a feedback that shows the fault
shown_status :
    (last out : List ℕ) → ShowsFault last out → ShowsStatus last (ok (value (take 2 out)))
shown_status last [] h = (h.0, h.1)
shown_status last (a ∷ []) h = (h.0, h.1)
shown_status last (a ∷ b ∷ out) h = (h.0, h.1)

module _ {A D : Type 0} (device : Device A D) where
  one_feedback :
      (wall mono : ℕ) (request : Request) (m : Model A D)
      → IsGuard m.guard
      → m.guard.restart_required ≡ true
      → AllBytes m.guard.last
      → is_cyclic request ≡ true
      → FaultFeedback m.guard.last (feedback_of (dispatch device wall mono request m).0)
  one_feedback wall mono request m g h bytes c =
      let out = dispatch device wall mono request m in
      let step = dispatch-Latched device wall mono request m g h in
      let shown =
        diagnosed out.1.guard (dispatch-IsGuard device wall mono request m g) step.restart
          (subst AllBytes (sym step.last) bytes) in
      subst (λ x. FaultFeedback x (feedback_of out.0)) step.last
        (subst (FaultFeedback out.1.guard.last)
          (sym (as_cyclic request out.0 out.1.guard c step.cyclic)) shown)

  -- On an axis that needs a restart every cycle or idle request, whatever requests came before, gets the
  -- fault feedback: the restart demanded, and the last valid feedback from before all of them with status
  -- bit 3 set and ready, switched on, enabled, quick stop, disabled and the setpoint acknowledge cleared.
  pub latched_feedback :
      (requests : List (ℕ × ℕ × Request)) (wall mono : ℕ) (request : Request) (m : Model A D)
      → IsGuard m.guard
      → m.guard.restart_required ≡ true
      → AllBytes m.guard.last
      → is_cyclic request ≡ true
      → FaultFeedback m.guard.last
          (feedback_of (dispatch device wall mono request (serve device requests m)).0)
  latched_feedback requests wall mono request m g h bytes c =
      let m' = serve device requests m in
      let same = serve-last device requests m g h in
      subst (λ x. FaultFeedback x (feedback_of (dispatch device wall mono request m').0)) same
        (one_feedback wall mono request m' (serve-IsGuard device requests m g)
          (serve_latched device requests m g h).2 (subst AllBytes (sym same) bytes) c)

  -- While a fault is on record an SDO read of the statusword changes nothing and answers two bytes: the
  -- word of the last valid feedback with status bit 3 set and ready, switched on, enabled, quick stop,
  -- disabled and the setpoint acknowledge cleared, whatever the adapter would say.
  pub read_statusword_faulty :
      (wall mono : ℕ) (m : Model A D)
      → IsGuard m.guard
      → is_some m.guard.diagnosis ≡ true
      → AllBytes m.guard.last
      → ((dispatch device wall mono (read 0x6041 0) m).1 ≡ m)
        × ShowsStatus m.guard.last (dispatch device wall mono (read 0x6041 0) m).0
  unfolding dispatch read_guarded
  read_statusword_faulty wall mono m g h bytes = elim (Option-cases m.guard.diagnosis) [
    | inl none_on_record ↦ ground arith
    | inr (d, e) ↦ ground (
      arith,
      shown_status m.guard.last (response m.guard).content (response_faulty m.guard d e bytes),
    )
  ]
