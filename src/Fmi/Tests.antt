-- ===== src/Fmi/Tests.antt =====
-- Calls of src/functional_model/runtime/fmi/runner.py at a concrete FMU.
use ethercat_device_simulato.Prelude.{ℕ, ◌+◌, ◌≡◌, ◌⊎◌, refl, Bool, true, false, pos, [], ◌∷◌, ltb}
use ethercat_device_simulato.Exec.{ok, ◌>>=◌}
use ethercat_device_simulato.Text.{codes}
use ethercat_device_simulato.Value.{int}
use ethercat_device_simulato.FKrCmmt.Tests.{values}
use ethercat_device_simulato.Fmi.{
  Native, Runner, Variable, unsigned, input, number, step, check_usable, latched, advance, close,
}
use ethercat_device_simulato.Fmi.Latch.{
  set_call, step_call, call, call_all, is_error, call-latches, close-failed,
}

-- An FMU that counts its calls and whose `doStep` asks to terminate from its third call on.
abbrev pub counting : Native ℕ ℕ
counting = record {
  instantiate = λ n. (ok tt, n + 1);
  enter_initialization = λ n. (ok tt, n + 1);
  exit_initialization = λ n. (ok tt, n + 1);
  set = λ reference value n. (ok tt, n + 1);
  get = λ reference n. (ok (int (pos n)), n + 1);
  do_step = λ now dt n.
      (ok (record { event_needed = false; terminate = ltb 2 n; early_return = false }), n + 1);
  terminate = λ n. (ok tt, n + 100);
  free = λ n. (ok tt, n + 1000);
  has_component = λ n. true;
}

abbrev control_word : Variable
control_word = record {
  name = codes "ControlWord";
  fmu_type = unsigned 16;
  causality = input;
  has_dimensions = false;
  reference = 7;
}

abbrev pub runner : ℕ → Bool → Runner ℕ ℕ
runner calls failed = record {
  native = calls;
  fmu = true;
  initialized = true;
  failed = failed;
  time = int (pos 0);
  variables = control_word ∷ [];
}

abbrev all_finite : ℕ → Bool
all_finite x = true

third_step :
    is_error (call all_finite counting values (step_call (int (pos 2))) (runner 3 false)).0 ≡ true
unfolding call step check_usable latched advance ◌>>=◌
third_step = refl

call-latches_example :
    ((call all_finite counting values (step_call (int (pos 2))) (runner 3 false)).1
      ≡ runner 3 false)
    ⊎ (call_all all_finite counting values
          (set_call (codes "ControlWord") (number (int (pos 6))) ∷ [])
          (call all_finite counting values (step_call (int (pos 2))) (runner 3 false)).1
        ≡ (call all_finite counting values (step_call (int (pos 2))) (runner 3 false)).1)
call-latches_example =
    call-latches all_finite counting values (step_call (int (pos 2)))
      (set_call (codes "ControlWord") (number (int (pos 6))) ∷ []) (runner 3 false) third_step

close-failed_example : (close all_finite counting (runner 4 true)).1.native ≡ 1004
close-failed_example = close-failed all_finite counting values (runner 4 true) refl refl
