-- ===== src/StateMachine/Tests.antt =====
-- Runs of the state machine, and the theorems at concrete inputs.
use mathlib.Core.List.{Sublistᴰ}
use ethercat_device_simulato.Prelude.{◌≡◌, ◌≢◌, refl, ℤ, pos, negsuc, List, [], ◌∷◌, map}
use ethercat_device_simulato.StateMachine.{
  initial, fault, switch_on_disabled, operation_enabled, process, run, get_statusword,
}
use ethercat_device_simulato.StateMachine.Commands.{
  shutdown, switch_on, enable_operation, command, next, process-eq-next,
}
use ethercat_device_simulato.StateMachine.Enabling.{
  run-operation_enabled_needs, run-enable_sequence, run_never_fault,
}

abbrev startup : List ℤ
startup = pos 6 ∷ pos 7 ∷ pos 15 ∷ []

startup_enables : run startup initial ≡ operation_enabled
unfolding run process
startup_enables = refl

-- A zero controlword leaves fault without a reset.
zero_leaves_fault : process (pos 0) fault ≡ switch_on_disabled
unfolding process
zero_leaves_fault = refl

process-eq-next_example : process (negsuc 0) fault ≡ next fault (command (negsuc 0))
process-eq-next_example = process-eq-next (negsuc 0) fault

run-operation_enabled_needs_example :
    Sublistᴰ (shutdown ∷ switch_on ∷ enable_operation ∷ []) (map command startup)
run-operation_enabled_needs_example = run-operation_enabled_needs startup startup_enables

run-enable_sequence_example :
    (run startup initial ≡ operation_enabled) × (get_statusword (run startup initial) ≡ 0x27)
unfolding command
run-enable_sequence_example =
    run-enable_sequence (pos 6) (pos 7) (pos 15) initial (λ e. cc) refl refl refl

run_never_fault_example :
    (run startup initial ≢ fault) × (get_statusword (run startup initial) ≢ 0x08)
run_never_fault_example = run_never_fault startup initial (λ e. cc)
