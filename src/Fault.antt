-- ===== src/Fault.antt =====
-- Axis diagnostics and the fault guard of one axis: src/functional_model/diagnostics/fault.py.
-- `time.time()` is an argument `now`; the log lines and the random `diagnostic_id` are left out.
pub mod Invariant
pub mod Recovery
pub mod Exchange
pub mod Projection
pub mod Sequence
mod Tests
use ethercat_device_simulato.Prelude.{
  ℕ, ◌-◌, ◌≡◌, Bool, true, false, not, ◌&&◌, ◌||◌, Option, none, some, List, [], ◌∷◌, ◌++◌,
  if◌then◌else◌, ◌==◌, bit_and, bit_or, has, and_not, from_le, to_le, take, drop, length, get_elem?,
}
use ethercat_device_simulato.Exec.{Error, value_error, other, Result, ok, err, Exec}

pub data Code : Type 0 where
  axis_drive_fault axis_adapter_fault axis_model_execution_failed : Code
  axis_model_output_invalid axis_drive_warning parameter_save_failed : Code

-- `definition.level`
pub data Level : Type 0 where
  fault_level alarm_level : Level

-- The text of a diagnostic: `str(exc)`, or one of the fixed sentences of `accept`.
pub data Detail : Type 0 where
  exc : Error → Detail
  model_reports_drive_fault model_reports_warning : Detail

-- The dictionary `context`; `none` is a missing key.
pub record Context : Type 0 where
  pub last_valid_at : Option (Option ℕ)
  pub feedback_valid : Option Bool
  pub restart_required : Option Bool
  pub execution_failure : Option Detail

abbrev pub no_context : Context
no_context = record {
  last_valid_at = none;
  feedback_valid = none;
  restart_required = none;
  execution_failure = none;
}

pub record Diagnostic : Type 0 where
  pub code : Code
  pub level : Level
  pub latching : Bool
  pub axis : ℕ
  pub detail : Detail
  pub occurred_at : ℕ
  pub acknowledged_at : Option ℕ
  pub resolved_at : Option ℕ
  pub context : Context

abbrev pub or_now : ℕ → Option ℕ → Option ℕ
or_now now none = some now
or_now now (some t) = some t

-- `Diagnostic.acknowledge`
unfoldable pub acknowledge : ℕ → Diagnostic → Diagnostic
acknowledge now d = record d { acknowledged_at = or_now now d.acknowledged_at }

-- `Diagnostic.resolve`
unfoldable pub resolve : ℕ → Diagnostic → Diagnostic
resolve now d = record d { resolved_at = or_now now d.resolved_at }

pub data Phase : Type 0 where
  normal fault verify_reset shutdown switch_on enable : Phase

-- `AxisFault`
pub record AxisFault : Type 0 where
  pub axis : ℕ
  pub last : List ℕ
  pub diagnosis : Option Diagnostic  -- `self.fault`
  pub warning : Option Diagnostic
  pub restart_required : Bool
  pub phase : Phase
  pub previous_cw : ℕ
  pub last_valid_at : Option ℕ
  pub feedback_valid : Bool

-- `AxisFault.__init__`
unfoldable pub new : ℕ → List ℕ → AxisFault
new axis initial = record {
  axis = axis;
  last = initial;
  diagnosis = none;
  warning = none;
  restart_required = false;
  phase = normal;
  previous_cw = 0;
  last_valid_at = none;
  feedback_valid = true;
}

abbrev pub is_drive_fault : Code → Bool
is_drive_fault axis_drive_fault = true
is_drive_fault _ = false

-- The diagnostic that `detect` leaves in `self.fault`: a new one, or the first one, escalated once.
diagnosed : ℕ → Code → Detail → Bool → AxisFault → Option Diagnostic → Diagnostic
diagnosed now code detail restart s none = record {
  code = code;
  level = fault_level;
  latching = true;
  axis = s.axis;
  detail = detail;
  occurred_at = now;
  acknowledged_at = none;
  resolved_at = none;
  context = record {
    last_valid_at = some s.last_valid_at;
    feedback_valid = some (is_drive_fault code && not restart);
    restart_required = some restart;
    execution_failure = none;
  };
}
diagnosed now code detail restart s (some d) =
    if restart && not s.restart_required
    then record d {
      context = record (d.context) {
        execution_failure = some detail;
        restart_required = some true;
        feedback_valid = some false;
      };
    }
    else d

-- `detect(code, detail, restart)`
unfoldable pub detect : ℕ → Code → Detail → Bool → AxisFault → AxisFault
unfolding diagnosed
detect now code detail restart s = record s {
  feedback_valid = if not (is_drive_fault code) || restart then false else s.feedback_valid;
  diagnosis = some (diagnosed now code detail restart s s.diagnosis);
  restart_required = s.restart_required || restart;
  phase = fault;
}

-- What `prepare` returns: the payload to run the model with, if any, and whether this is a reset.
abbrev pub Prepared : Type 0
Prepared = Option (List ℕ) × Bool

-- `b'\x00\x00' + payload[2:]` and its like
abbrev pub with_controlword : ℕ → List ℕ → List ℕ
with_controlword cw payload = to_le 2 cw ++ drop 2 payload

-- Phase 'fault' with a restart required or no rising reset bit. `none`: `self.fault` is missing.
withheld : List ℕ → AxisFault → Option Diagnostic → Result Prepared
withheld payload s none = if s.restart_required then ok (none, false) else err other
withheld payload s (some d) =
    if not s.restart_required && is_drive_fault d.code
    then ok (some (with_controlword 0 payload), false)
    else ok (none, false)

reset_pulse : ℕ → List ℕ → AxisFault → Option Diagnostic → Result Prepared × AxisFault
reset_pulse now payload s none = (err other, s)
reset_pulse now payload s (some d) = (
  ok (some (with_controlword 0x80 payload), true),
  record s { diagnosis = some (acknowledge now d) },
)

-- `payload[2] == 1`, or `IndexError`.
select_mode : List ℕ → Option ℕ → AxisFault → Result Prepared × AxisFault
select_mode payload none s = (err other, s)
select_mode payload (some mode) s =
    if mode == 1
    then (ok (some payload, false), record s { phase = normal })
    else (ok (none, false), s)

-- The part of `prepare` below the update of `previous_cw`.
prepare_in : Phase → ℕ → ℕ → Bool → List ℕ → Exec AxisFault Prepared
unfolding acknowledge withheld reset_pulse select_mode
prepare_in normal now cw reset payload s = (ok (some payload, false), s)
prepare_in verify_reset now cw reset payload s =
    if has cw 0x80 then (ok (none, false), s) else (ok (some (with_controlword 0 payload), true), s)
prepare_in fault now cw reset payload s =
    if s.restart_required || not reset
    then (withheld payload s s.diagnosis, s)
    else reset_pulse now payload s s.diagnosis
prepare_in shutdown now cw reset payload s =
    if bit_and cw 0x8f == 6
    then (ok (some payload, false), record s { phase = switch_on })
    else (ok (none, false), s)
prepare_in switch_on now cw reset payload s =
    if bit_and cw 0x8f == 7
    then (ok (some payload, false), record s { phase = enable })
    else (ok (none, false), s)
prepare_in enable now cw reset payload s =
    if bit_and cw 0x8f == 15 && not (has cw 0x10)
    then select_mode payload (get_elem? payload 2) s
    else (ok (none, false), s)

-- `prepare(payload)`
unfoldable pub prepare : ℕ → List ℕ → Exec AxisFault Prepared
unfolding prepare_in
prepare now payload s =
    let cw = from_le (take 2 payload) in
    let reset = has cw 0x80 && not (has s.previous_cw 0x80) in
    prepare_in s.phase now cw reset payload (record s { previous_cw = cw })

-- `elif resetting and self.fault`: the first healthy output after the pulse asks for a second one,
-- the second one clears the fault.
settle : AxisFault → Option Diagnostic → Phase → AxisFault
settle s none p = s
settle s (some d) verify_reset = record s { diagnosis = none; phase = shutdown }
settle s (some d) _ = record s { phase = verify_reset }

drive_warning : ℕ → AxisFault → Diagnostic
drive_warning now s = record {
  code = axis_drive_warning;
  level = alarm_level;
  latching = false;
  axis = s.axis;
  detail = model_reports_warning;
  occurred_at = now;
  acknowledged_at = none;
  resolved_at = none;
  context = no_context;
}

warned : ℕ → Bool → AxisFault → Option Diagnostic → Option Diagnostic
warned now true s none = some (drive_warning now s)
warned now true s (some w) = some w
warned now false s w = none

-- `accept(output, resetting)`
unfoldable pub accept : ℕ → List ℕ → Bool → Exec AxisFault (Unit {0})
unfolding detect settle warned drive_warning
accept now output resetting s =
    let sw = from_le (take 2 output) in
    let seen = record s { last = output; last_valid_at = some now; feedback_valid = true } in
    let judged =
      if has sw 8
      then detect now axis_drive_fault model_reports_drive_fault false seen
      else if resetting
      then settle seen seen.diagnosis seen.phase
      else seen in
    if length output == length s.last
    then (ok tt, record judged { warning = warned now (has sw 0x80) judged judged.warning })
    else (err value_error, s)

pub record FaultResponse : Type 0 where
  pub content : List ℕ  -- 'data'
  pub diagnosis : Option Diagnostic
  pub restart_required : Bool
  pub feedback_valid : Bool
  pub last_valid_at : Option ℕ

-- The status bits of a projected fault: `(sw & ~0x106f) | 8`
unfoldable pub fault_bits : ℕ → ℕ
fault_bits sw = bit_or (and_not sw 0x106f) 8

projected : List ℕ → Option Diagnostic → List ℕ
unfolding fault_bits
projected bytes none = bytes
projected bytes (some d) = to_le 2 (fault_bits (from_le (take 2 bytes))) ++ drop 2 bytes

-- `response()`
unfoldable pub response : AxisFault → FaultResponse
unfolding projected
response s = record {
  content = projected s.last s.diagnosis;
  diagnosis = s.diagnosis;
  restart_required = s.restart_required;
  feedback_valid = s.feedback_valid;
  last_valid_at = s.last_valid_at;
}
