-- ===== src/Axis/Tests.antt =====
-- The theorems on one axis at concrete inputs: a drive that answers with the payload it was given.
use ethercat_device_simulato.Prelude.{
  ℕ, ◌+◌, ◌≡◌, refl, arith, true, none, some, List, [], ◌∷◌, take, AllBytes,
}
use ethercat_device_simulato.Exec.{pure, gets, modify, runtime_error}
use ethercat_device_simulato.Adapter.{DriveAdapter}
use ethercat_device_simulato.Fault.{AxisFault, new, detect, exc, axis_model_execution_failed}
use ethercat_device_simulato.Fault.Invariant.{IsGuard, is_some, detect-IsGuard}
use ethercat_device_simulato.Axis.{Device, Model, Request, read, write, cycle, idle}
use ethercat_device_simulato.Axis.Dispatch.{dispatch}
use ethercat_device_simulato.Axis.Dispatch.Isolation.{
  feedback_of, serve, serve_latched, serve-IsGuard,
}
use ethercat_device_simulato.Axis.Dispatch.Feedback.{
  FaultFeedback, ShowsStatus, latched_feedback, read_statusword_faulty,
}

abbrev pub echo : DriveAdapter (List ℕ)
echo = record {
  read_sdo = λ index sub size. gets (λ a. take size a);
  write_sdo = λ index sub bytes. modify (λ a. bytes);
  apply_outputs = λ payload. modify (λ a. payload);
  step = λ dt. pure tt;
  read_inputs = gets (λ a. a);
  od_equals = λ index sub n. pure true;
  od_write_role = λ role n. pure tt;
}

abbrev pub device : Device (List ℕ) ℕ
device = record {
  ops = echo;
  slave_index = 0;
  rx_size = 3;
  entries = λ index sub. none;
  store = some (modify (λ s. (s.0, s.1 + 1)));
}

abbrev pub feedback : List ℕ
feedback = 39 ∷ 2 ∷ 0 ∷ []

abbrev pub operation : List ℕ
operation = 15 ∷ 0 ∷ 1 ∷ []

abbrev pub with_guard : AxisFault → Model (List ℕ) ℕ
with_guard g = record {
  adapter = feedback;
  disk = 0;
  guard = g;
  last_cycle = none;
  cycles = 0;
  save_diagnostic = none;
}

abbrev pub broken : AxisFault
broken = detect 5 axis_model_execution_failed (exc runtime_error) true (new 0 feedback)

broken_restart : broken.restart_required ≡ true
unfolding detect new
broken_restart = refl

broken-IsGuard : IsGuard broken
broken-IsGuard =
    detect-IsGuard 5 axis_model_execution_failed (exc runtime_error) true (new 0 feedback)

abbrev pub requests : List (ℕ × ℕ × Request)
requests =
    (1, 1, cycle (some operation))
    ∷ (2, 2, idle)
    ∷ (3, 3, write 0x2005 1 (some (1 ∷ [])))
    ∷ (4, 4, cycle none)
    ∷ []

serve_latched_example :
    ((serve device requests (with_guard broken)).adapter ≡ feedback)
    × ((serve device requests (with_guard broken)).disk ≡ 0)
    × ((serve device requests (with_guard broken)).guard.restart_required ≡ true)
serve_latched_example =
    serve_latched device requests (with_guard broken) broken-IsGuard broken_restart

serve-IsGuard_example : IsGuard (serve device requests (with_guard broken)).guard
serve-IsGuard_example = serve-IsGuard device requests (with_guard broken) broken-IsGuard

feedback_bytes : AllBytes broken.last
unfolding detect new
feedback_bytes = (omega arith, (omega arith, (omega arith, tt)))

latched_feedback_example :
    FaultFeedback broken.last
      (feedback_of (dispatch device 9 9 idle (serve device requests (with_guard broken))).0)
latched_feedback_example =
    latched_feedback device requests 9 9 idle (with_guard broken) broken-IsGuard broken_restart
      feedback_bytes refl

broken_diagnosis : is_some broken.diagnosis ≡ true
unfolding detect new
broken_diagnosis = refl

read_statusword_faulty_example :
    ((dispatch device 1 1 (read 0x6041 0) (with_guard broken)).1 ≡ with_guard broken)
    × ShowsStatus broken.last (dispatch device 1 1 (read 0x6041 0) (with_guard broken)).0
read_statusword_faulty_example =
    read_statusword_faulty device 1 1 (with_guard broken) broken-IsGuard broken_diagnosis
      feedback_bytes
