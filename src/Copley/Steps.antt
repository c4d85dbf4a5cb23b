-- ===== src/Copley/Steps.antt =====
-- The time that the Copley adapter hands to its FMU: `step` of
-- src/functional_model/cia402_drive/adapter/copley.py and runtime/fmi/runner.py.
use ethercat_device_simulato.Prelude.{ℕ, zero, suc, ◌≡◌, ℤ, Bool, true, false, not, ◌&&◌}
use ethercat_device_simulato.Exec.{Result, ok, err, Exec, modify, ◌>>◌}
use ethercat_device_simulato.Value.{Value}
use ethercat_device_simulato.Numbers.{Numbers}
use ethercat_device_simulato.Fmi.{StepFlags, Native, is_finite, number, step as step_fmu}
use ethercat_device_simulato.Copley.{Copley, on_runner}
use ethercat_device_simulato.Copley.Clock.{Clock}
use ethercat_device_simulato.Copley.Cycle.{step_seconds, zero_time, is_due, drain, run_steps, step}

-- The flags of a `doStep` that completed
abbrev pub quiet : StepFlags
quiet = record { event_needed = false; terminate = false; early_return = false }

abbrev pub is_ok : {A : Type 0} → Result A → Bool
is_ok (ok a) = true
is_ok (err e) = false

-- Where `m` returns from a state with `P`, the state after it has `Q`.
abbrev Returns : {S A : Type 0} → (S → Type 0) → Exec S A → (S → Type 0) → Type 0
Returns {S} P m Q = (s : S) → P s → is_ok (m s).0 ≡ true → Q (m s).1

-- `f` applied `n` times
pub iterate : {A : Type 0} → ℕ → (A → A) → A → A
iterate zero f a = a
iterate (suc n) f a = iterate n f (f a)

module _ {F N : Type 0} (finite : F → Bool) (native : Native F N) (nums : Numbers (Value F))
    (round : Value F → Result ℤ) where
  abbrev later : Value F → Value F
  later time = nums.add time (step_seconds finite native nums round)

  abbrev less : Value F → Value F
  less = drain finite native nums round

  abbrev pub due : Value F → Bool
  due = is_due finite native nums round

  -- A period is due before each of `n` rounds.
  pub all_due : ℕ → Value F → Bool
  all_due zero left = true
  all_due (suc n) left = due left && all_due n (less left)

  -- The periods that are due in `left` have been taken from it and added to `time`, one by one, and no
  -- further one is due.
  pub record Drained (time left : Value F) (s : Copley F N) : Type 0 where
    pub rounds : ℕ
    pub clock : s.runner.time ≡ iterate rounds later time
    pub remainder : s.remainder ≡ iterate rounds less left
    pub needed : all_due rounds left ≡ true
    pub done : due s.remainder ≡ false

  abbrev advance_clock : Exec (Copley F N) (Unit {0})
  advance_clock = on_runner (step_fmu finite native nums (step_seconds finite native nums round))

  abbrev round_of : ℕ → Exec (Copley F N) (Unit {0})
  round_of fuel = do
    advance_clock
    modify (λ s. record s { remainder = less s.remainder })
    run_steps finite native nums round fuel

  abbrev Usable : Copley F N → Type 0
  Usable s = (s.runner.initialized ≡ true) × (s.runner.failed ≡ false)

  -- The period is a finite positive number.
  abbrev pub is_period : Value F → Bool
  is_period dt =
      is_finite finite (number dt) && not (nums.le dt (zero_time finite native nums round))
