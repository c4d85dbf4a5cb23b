-- ===== src/Fault/Exchange.antt =====
-- One cycle of a guard: `prepare`, the model, then `accept` or `detect`, as `Model.dispatch` of
-- src/functional_model/runtime/axis.py joins them.
use ethercat_device_simulato.Prelude.{
  ℕ, ◌+◌, ◌≤◌, ◌≡◌, arith, Bool, true, false, Option, none, some, List, [], ◌∷◌, length,
  if◌then◌else◌,
}
use ethercat_device_simulato.Exec.{Error, device_rejected, Result, ok, err}
use ethercat_device_simulato.Fault.{
  Code, Detail, Phase, normal, fault, verify_reset, shutdown, switch_on, enable, AxisFault, detect,
  prepare, accept, exc, axis_adapter_fault, axis_model_execution_failed, axis_model_output_invalid,
}
use ethercat_device_simulato.Fault.Invariant.{
  IsGuard, prepare-IsGuard, accept-IsGuard, detect-IsGuard,
}

-- What the model did with a payload: its output, or the exception that it raised.
pub data Outcome : Type 0 where
  output : List ℕ → Outcome
  raised : Error → Outcome

accepted : ℕ → Result (Unit {0}) × AxisFault → AxisFault
accepted now (ok _, s) = s
accepted now (err e, s) = detect now axis_model_output_invalid (exc e) true s

-- The two `except` clauses of a cycle.
unfoldable pub failed : ℕ → Error → AxisFault → AxisFault
failed now device_rejected s = detect now axis_adapter_fault (exc device_rejected) false s
failed now e s = detect now axis_model_execution_failed (exc e) true s

pub concluded : ℕ → Outcome → Bool → AxisFault → AxisFault
unfolding accepted failed
concluded now (output o) resetting s = accepted now (accept now o resetting s)
concluded now (raised e) resetting s = failed now e s

pub data Cycle : Type 0 where
  cycle : ℕ → List ℕ → Outcome → Cycle

after_prepare : ℕ → Outcome → Result (Option (List ℕ) × Bool) × AxisFault → AxisFault
unfolding concluded failed
after_prepare now out (ok (some p, resetting), s) = concluded now out resetting s
after_prepare now out (ok (none, resetting), s) = s
after_prepare now out (err e, s) = failed now e s

unfoldable pub exchange : Cycle → AxisFault → AxisFault
unfolding after_prepare
exchange (cycle now payload out) s = after_prepare now out (prepare now payload s)

unfoldable pub exchanges : List Cycle → AxisFault → AxisFault
exchanges [] s = s
exchanges (c ∷ cs) s = exchanges cs (exchange c s)

-- A passed payload that resets goes with a guard that needs no restart.
pub prepare_resets :
    (now : ℕ) (payload p : List ℕ) (s : AxisFault)
    → IsGuard s
    → (prepare now payload s).0 ≡ ok (some p, true)
    → (prepare now payload s).1.restart_required ≡ false
unfolding prepare
prepare_resets now payload p s g h = ground arith

accepted-IsGuard :
    (now : ℕ) (x : Result (Unit {0}) × AxisFault) → IsGuard x.1 → IsGuard (accepted now x)
unfolding accepted
accepted-IsGuard now (ok _, s) g = g
accepted-IsGuard now (err e, s) g = detect-IsGuard now axis_model_output_invalid (exc e) true s

pub failed-IsGuard : (now : ℕ) (e : Error) (s : AxisFault) → IsGuard (failed now e s)
unfolding failed
failed-IsGuard now device_rejected s =
    detect-IsGuard now axis_adapter_fault (exc device_rejected) false s
failed-IsGuard now e s = detect-IsGuard now axis_model_execution_failed (exc e) true s

pub concluded-IsGuard :
    (now : ℕ) (out : Outcome) (resetting : Bool) (s : AxisFault)
    → IsGuard s
    → (resetting ≡ true → s.restart_required ≡ false)
    → IsGuard (concluded now out resetting s)
unfolding concluded
concluded-IsGuard now (output o) resetting s g only =
    accepted-IsGuard now (accept now o resetting s) (accept-IsGuard now o resetting s g only)
concluded-IsGuard now (raised e) resetting s g only = failed-IsGuard now e s

after_prepare-IsGuard :
    (now : ℕ) (out : Outcome) (r : Result (Option (List ℕ) × Bool)) (s : AxisFault)
    → IsGuard s
    → ((p : List ℕ) → r ≡ ok (some p, true) → s.restart_required ≡ false)
    → IsGuard (after_prepare now out (r, s))
unfolding after_prepare
after_prepare-IsGuard now out (ok (some p, resetting)) s g only =
    concluded-IsGuard now out resetting s g (λ e. only p (rw e))
after_prepare-IsGuard now out (ok (none, resetting)) s g only = g
after_prepare-IsGuard now out (err e) s g only = failed-IsGuard now e s

pub exchange-IsGuard : (c : Cycle) (s : AxisFault) → IsGuard s → IsGuard (exchange c s)
unfolding exchange
exchange-IsGuard (cycle now payload out) s g =
    after_prepare-IsGuard now out (prepare now payload s).0 (prepare now payload s).1
      (prepare-IsGuard now payload s g) (λ p. prepare_resets now payload p s g)

-- Over any cycles, well-formedness is kept.
pub exchanges-IsGuard : (cs : List Cycle) (s : AxisFault) → IsGuard s → IsGuard (exchanges cs s)
unfolding exchanges
exchanges-IsGuard [] s g = g
exchanges-IsGuard (c ∷ cs) s g = exchanges-IsGuard cs (exchange c s) (exchange-IsGuard c s g)

-- How many cycles a phase is away from normal operation.
abbrev pub distance : Phase → ℕ
distance normal = 0
distance enable = 1
distance switch_on = 2
distance shutdown = 3
distance verify_reset = 4
distance fault = 5

-- A resetting payload leaves one step for `accept`.
slack : Result (Option (List ℕ) × Bool) → ℕ
slack (ok (some p, true)) = 1
slack _ = 0

distance-prepare :
    (now : ℕ) (payload : List ℕ) (s : AxisFault)
    → distance s.phase + slack (prepare now payload s).0
      ≤ 1 + distance (prepare now payload s).1.phase
unfolding prepare slack
distance-prepare now payload s = ground arith

distance-accept :
    (now : ℕ) (o : List ℕ) (resetting : Bool) (s : AxisFault)
    → distance s.phase ≤ (if resetting then 1 else 0) + distance (accept now o resetting s).1.phase
unfolding accept
distance-accept now o resetting s = ground arith

distance-detect :
    (now : ℕ) (c : Code) (d : Detail) (restart : Bool) (s : AxisFault) (k : ℕ)
    → distance s.phase ≤ k + distance (detect now c d restart s).phase
unfolding detect
distance-detect now c d restart s k = ground arith

distance-failed :
    (now : ℕ) (e : Error) (s : AxisFault) (k : ℕ)
    → distance s.phase ≤ k + distance (failed now e s).phase
unfolding failed
distance-failed now device_rejected s k = distance-detect now _ _ _ s k
distance-failed now e s k = distance-detect now _ _ _ s k

distance-accepted :
    (now : ℕ) (x : Result (Unit {0}) × AxisFault) (k : ℕ)
    → distance x.1.phase ≤ k + distance (accepted now x).phase
unfolding accepted
distance-accepted now (ok _, s) k = omega arith
distance-accepted now (err e, s) k = distance-detect now _ _ _ s k

distance-concluded :
    (now : ℕ) (out : Outcome) (resetting : Bool) (s : AxisFault)
    → distance s.phase
      ≤ (if resetting then 1 else 0) + distance (concluded now out resetting s).phase
unfolding concluded
distance-concluded now (output o) resetting s =
    omega
      (arith, distance-accept now o resetting s, distance-accepted now (accept now o resetting s) 0)
distance-concluded now (raised e) resetting s = distance-failed now e s _

distance-after_prepare :
    (now : ℕ) (out : Outcome) (r : Result (Option (List ℕ) × Bool)) (s : AxisFault)
    → distance s.phase ≤ slack r + distance (after_prepare now out (r, s)).phase
unfolding after_prepare slack
distance-after_prepare now out (ok (some p, true)) s = distance-concluded now out true s
distance-after_prepare now out (ok (some p, false)) s = distance-concluded now out false s
distance-after_prepare now out (ok (none, resetting)) s = omega arith
distance-after_prepare now out (err e) s = distance-failed now e s 0

distance-exchange :
    (c : Cycle) (s : AxisFault) → distance s.phase ≤ 1 + distance (exchange c s).phase
unfolding exchange
distance-exchange (cycle now payload out) s = omega (
  arith,
  distance-prepare now payload s,
  distance-after_prepare now out (prepare now payload s).0 (prepare now payload s).1,
)

distance-exchanges :
    (cs : List Cycle) (s : AxisFault)
    → distance s.phase ≤ length cs + distance (exchanges cs s).phase
unfolding exchanges
distance-exchanges [] s = omega arith
distance-exchanges (c ∷ cs) s =
    omega (arith, distance-exchange c s, distance-exchanges cs (exchange c s))

-- A faulted axis is back in phase normal after five cycles at the earliest, whatever the master sends
-- and the model does.
pub recovery_takes_five :
    (cs : List Cycle) (s : AxisFault)
    → s.phase ≡ fault
    → (exchanges cs s).phase ≡ normal
    → 5 ≤ length cs
recovery_takes_five cs s bad good = ground (arith, distance-exchanges cs s)
