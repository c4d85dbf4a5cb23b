-- ===== src/Fault/Tests.antt =====
-- The theorems on the fault guard at concrete inputs: the reset of an axis whose drive reported a fault.
use ethercat_device_simulato.Prelude.{
  ℕ, ◌≤◌, ◌≡◌, ◌≢◌, ◌⊎◌, refl, ap, arith, true, false, none, some, List, [], ◌∷◌, has, bit_and,
  get_elem?, length, from_le,
}
use ethercat_device_simulato.Exec.{ok}
use ethercat_device_simulato.Fault.{
  AxisFault, normal, fault, enable, new, detect, prepare, response, with_controlword,
  axis_drive_fault, model_reports_drive_fault,
}
use ethercat_device_simulato.Fault.Invariant.{detect-IsGuard}
use ethercat_device_simulato.Fault.Recovery.{
  controlword, acknowledged, prepare_enables, prepare-faulty,
}
use ethercat_device_simulato.Fault.Exchange.{Cycle, cycle, output, exchanges, recovery_takes_five}
use ethercat_device_simulato.Fault.Projection.{ShowsFault, response_faulty}
use ethercat_device_simulato.Fault.Sequence.{Recovering, IsHealthy, recovery_sequence}

abbrev feedback : List ℕ
feedback = 39 ∷ 2 ∷ 0 ∷ []

abbrev tripped : AxisFault
tripped = detect 5 axis_drive_fault model_reports_drive_fault false (new 0 feedback)

tripped_fault : tripped.phase ≡ fault
unfolding detect
tripped_fault = refl

tripped_free : tripped.restart_required ≡ false
unfolding detect new
tripped_free = refl

tripped_last : tripped.last ≡ feedback
unfolding detect new
tripped_last = refl

tripped_low : has tripped.previous_cw 0x80 ≡ false
unfolding detect new
tripped_low = refl

tripped-Recovering : Recovering 3 fault tripped
tripped-Recovering = record {
  guard = detect-IsGuard 5 axis_drive_fault model_reports_drive_fault false (new 0 feedback);
  in_phase = tripped_fault;
  no_restart = tripped_free;
  sized = ap length tripped_last;
}

feedback-IsHealthy : IsHealthy 3 feedback
unfolding from_le
feedback-IsHealthy = record { sized = refl; no_fault = refl }

abbrev command : ℕ → List ℕ
command cw = cw ∷ 0 ∷ 1 ∷ []

abbrev reset_sequence : List Cycle
reset_sequence =
    cycle 9 (command 0x80) (output feedback)
    ∷ cycle 9 (command 0) (output feedback)
    ∷ cycle 9 (command 6) (output feedback)
    ∷ cycle 9 (command 7) (output feedback)
    ∷ cycle 9 (command 15) (output feedback)
    ∷ []

recovery_sequence_example :
    ((exchanges reset_sequence tripped).phase ≡ normal)
    × ((exchanges reset_sequence tripped).diagnosis ≡ none)
unfolding from_le
recovery_sequence_example =
    recovery_sequence 3 9 (command 0x80) (command 0) (command 6) (command 7) (command 15) feedback
      feedback feedback feedback feedback tripped tripped-Recovering feedback-IsHealthy
      feedback-IsHealthy feedback-IsHealthy feedback-IsHealthy feedback-IsHealthy tripped_low refl
      refl refl refl refl refl refl

recovery_takes_five_example : 5 ≤ length reset_sequence
recovery_takes_five_example =
    recovery_takes_five reset_sequence tripped tripped_fault recovery_sequence_example.0

abbrev nearly : AxisFault
nearly = record (new 0 feedback) { phase = enable }

nearly_off : nearly.phase ≢ normal
nearly_off = ground arith

nearly_passes : (prepare 9 (command 15) nearly).0 ≡ ok (some (command 15), false)
unfolding prepare from_le
nearly_passes = refl

fifteen : bit_and (controlword (command 15)) 0x8f ≡ 15
unfolding from_le
fifteen = refl

prepare_enables_example :
    (nearly.phase ≡ enable)
    × (command 15 ≡ command 15)
    × (has (controlword (command 15)) 0x10 ≡ false)
    × (get_elem? (command 15) 2 ≡ some 1)
prepare_enables_example =
    prepare_enables 9 (command 15) (command 15) false nearly nearly_off nearly_passes fifteen

pulse_passes :
    (prepare 9 (command 0x80) tripped).0 ≡ ok (some (with_controlword 0x80 (command 0x80)), true)
unfolding prepare from_le detect new
pulse_passes = refl

prepare-faulty_example :
    (with_controlword 0x80 (command 0x80) ≡ with_controlword 0 (command 0x80))
    ⊎ ((with_controlword 0x80 (command 0x80) ≡ with_controlword 0x80 (command 0x80))
        × (tripped.phase ≡ fault)
        × (tripped.restart_required ≡ false)
        × (has (controlword (command 0x80)) 0x80 ≡ true)
        × (has tripped.previous_cw 0x80 ≡ false)
        × (acknowledged (prepare 9 (command 0x80) tripped).1.diagnosis ≡ true))
unfolding detect
prepare-faulty_example =
    prepare-faulty 9 (command 0x80) (with_controlword 0x80 (command 0x80)) true tripped refl
      pulse_passes

response_faulty_example : ShowsFault feedback (response tripped).content
unfolding detect new
response_faulty_example =
    response_faulty tripped _ refl (omega arith, (omega arith, (omega arith, tt)))
