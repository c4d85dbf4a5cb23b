-- ===== src/Supervisor/Tests.antt =====
-- Runs of `main` of docker/service.py.
use ethercat_device_simulato.Prelude.{
  ℕ, ◌≡◌, refl, Bool, true, false, Option, none, some, List, [], ◌∷◌,
}
use ethercat_device_simulato.Supervisor.{
  Observation, Start, Child, report, ready, model_failed, exit_code, main, supervise,
}
use ethercat_device_simulato.Supervisor.Loops.{goes_on, all_calm, supervise-calm}
use ethercat_device_simulato.Supervisor.Cleanup.{running_after, main-cleanup}

abbrev round : Option ℕ → Bool → Bool → ℕ → Observation
round model_code owned signal now = record {
  signal = signal;
  model_code = model_code;
  slave_code = none;
  socket = true;
  owned = owned;
  now = now;
}

-- The model dies in the second round.
abbrev rounds : List Observation
rounds = round none true false 1 ∷ round (some 1) true false 2 ∷ round (some 1) true false 3 ∷ []

-- It is reported once.
model_death : (supervise 0 0 false false rounds).actions ≡ report ready ∷ report model_failed ∷ []
unfolding supervise
model_death = refl

supervise-calm_example : goes_on (supervise 0 0 false false rounds).exit ≡ all_calm 0 0 rounds
supervise-calm_example = supervise-calm 0 0 false rounds

abbrev start : Start
start = record {
  validate_only = false;
  prepared = true;
  locked = true;
  timeout = 0;
  stale = false;
  model_at = 0;
  slave_at = 0;
  loop_at = 0;
}

abbrev child : Child
child = record { alive = true; on_terminate = false; on_kill = true }

-- The slave comes up, the model dies, and a signal ends the service.
abbrev session : List Observation
session =
    round none false false 1
    ∷ round none true false 2
    ∷ round (some 1) true false 3
    ∷ round (some 1) true true 4
    ∷ []

session_ends : (main start child child session).outcome ≡ exit_code 0
unfolding main
session_ends = refl

main-cleanup_example :
    running_after child child (false, false) (main start child child session).actions
    ≡ (false, false)
main-cleanup_example = main-cleanup start child child session 0 session_ends
