-- ===== src/Fault/Recovery.antt =====
-- What `prepare` of src/functional_model/diagnostics/fault.py lets through.
use ethercat_device_simulato.Prelude.{
  ℕ, ◌≡◌, ◌≢◌, ◌⊎◌, arith, Bool, true, false, Option, none, some, List, take, get_elem?, has,
  bit_and, from_le, to_le,
}
use ethercat_device_simulato.Exec.{ok}
use ethercat_device_simulato.Fault.{
  normal, fault, enable, AxisFault, Diagnostic, prepare, with_controlword,
}
use ethercat_device_simulato.Fault.Invariant.{IsGuard, faulty, is_some}

-- The controlword of a payload.
abbrev pub controlword : List ℕ → ℕ
controlword p = from_le (take 2 p)

abbrev pub acknowledged : Option Diagnostic → Bool
acknowledged none = false
acknowledged (some d) = is_some d.acknowledged_at

-- Outside phase normal an Enable Operation command reaches the model only in phase enable, and then
-- the payload is the master's own, with the new-setpoint bit clear and profile position mode.
pub prepare_enables :
    (now : ℕ) (payload p : List ℕ) (resetting : Bool) (s : AxisFault)
    → s.phase ≢ normal
    → (prepare now payload s).0 ≡ ok (some p, resetting)
    → bit_and (controlword p) 0x8f ≡ 15
    → (s.phase ≡ enable)
      × (p ≡ payload)
      × (has (controlword p) 0x10 ≡ false)
      × (get_elem? p 2 ≡ some 1)
unfolding prepare from_le to_le
prepare_enables now payload p resetting s off passed command = ground arith

-- While a fault is on record, a payload that reaches the model is the master's with the controlword
-- replaced by 0, or by 0x80 in the one cycle that begins a reset: phase fault, no restart required,
-- the master's reset bit set and clear in the cycle before, the fault now acknowledged.
pub prepare-faulty :
    (now : ℕ) (payload p : List ℕ) (resetting : Bool) (s : AxisFault)
    → faulty s.phase ≡ true
    → (prepare now payload s).0 ≡ ok (some p, resetting)
    → (p ≡ with_controlword 0 payload)
      ⊎ ((p ≡ with_controlword 0x80 payload)
          × (s.phase ≡ fault)
          × (s.restart_required ≡ false)
          × (has (controlword payload) 0x80 ≡ true)
          × (has s.previous_cw 0x80 ≡ false)
          × (acknowledged (prepare now payload s).1.diagnosis ≡ true))
unfolding prepare
prepare-faulty now payload p resetting s bad passed = ground arith

-- An axis that needs a restart gets no payload through, whatever the master sends, and stays so.
pub prepare_latched :
    (now : ℕ) (payload : List ℕ) (s : AxisFault)
    → IsGuard s
    → s.restart_required ≡ true
    → ((prepare now payload s).0 ≡ ok (none, false))
      × ((prepare now payload s).1.restart_required ≡ true)
unfolding prepare
prepare_latched now payload s g h = ground arith

-- The last valid feedback is the model's, not the master's.
pub prepare-last :
    (now : ℕ) (payload : List ℕ) (s : AxisFault) → (prepare now payload s).1.last ≡ s.last
unfolding prepare
prepare-last now payload s = ground arith
