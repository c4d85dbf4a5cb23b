-- ===== src/Supervisor/Loops.antt =====
-- What ends the last loop of `main` in docker/service.py.
use ethercat_device_simulato.Prelude.{
  ℕ, ◌≡◌, refl, arith, Bool, true, false, not, ◌&&◌, List, [], ◌∷◌,
}
use ethercat_device_simulato.Supervisor.{
  Observation, Exit, still_running, exited, is_timeout, supervise,
}

abbrev pub goes_on : Exit → Bool
goes_on still_running = true
goes_on e = false

-- No signal, the slave is alive and the timeout is not reached; the model does not count.
abbrev pub is_calm : ℕ → ℕ → Observation → Bool
is_calm timeout started o =
    not o.signal && not (exited o.slave_code) && not (is_timeout timeout started o.now)

unfoldable pub all_calm : ℕ → ℕ → List Observation → Bool
all_calm timeout started [] = true
all_calm timeout started (o ∷ os) = is_calm timeout started o && all_calm timeout started os

-- Entered before any signal, the last loop goes on exactly as long as no signal comes, the slave is alive
-- and the timeout is not reached, whether the model is alive or not.
pub supervise-calm :
    (timeout started : ℕ) (failed_before : Bool) (os : List Observation)
    → goes_on (supervise timeout started failed_before false os).exit ≡ all_calm timeout started os
unfolding supervise all_calm
supervise-calm timeout started failed_before [] = refl
supervise-calm timeout started failed_before (o ∷ os) =
    ground (arith, supervise-calm timeout started (exited o.model_code) os)
