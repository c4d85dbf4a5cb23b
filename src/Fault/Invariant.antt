-- ===== src/Fault/Invariant.antt =====
-- The well-formedness of a guard, and the operations that keep it.
use ethercat_device_simulato.Prelude.{
  ℕ, ◌≡◌, arith, Bool, true, false, not, ◌||◌, Option, none, some, List,
}
use ethercat_device_simulato.Fault.{
  Code, Detail, Phase, fault, verify_reset, AxisFault, new, detect, prepare, accept,
}

-- The phases in which a fault is on record.
abbrev pub faulty : Phase → Bool
faulty fault = true
faulty verify_reset = true
faulty _ = false

abbrev pub is_fault : Phase → Bool
is_fault fault = true
is_fault _ = false

abbrev pub is_some {ℓ} : {A : Type ℓ} → Option A → Bool
is_some none = false
is_some (some a) = true

-- A fault is on record exactly in the phases fault and verify_reset, and an axis that needs a restart
-- stays in phase fault.
pub record IsGuard (s : AxisFault) : Type 0 where
  pub on_record : is_some s.diagnosis ≡ faulty s.phase
  pub restart_holds : (not s.restart_required || is_fault s.phase) ≡ true

pub new-IsGuard : (axis : ℕ) (initial : List ℕ) → IsGuard (new axis initial)
unfolding new
new-IsGuard axis initial = ground arith

pub detect-IsGuard :
    (now : ℕ) (c : Code) (d : Detail) (restart : Bool) (s : AxisFault)
    → IsGuard (detect now c d restart s)
unfolding detect
detect-IsGuard now c d restart s = ground arith

pub prepare-IsGuard :
    (now : ℕ) (p : List ℕ) (s : AxisFault) → IsGuard s → IsGuard (prepare now p s).1
unfolding prepare
prepare-IsGuard now p s h = ground arith

-- A resetting output is only accepted where no restart is required.
pub accept-IsGuard :
    (now : ℕ) (o : List ℕ) (resetting : Bool) (s : AxisFault)
    → IsGuard s
    → (resetting ≡ true → s.restart_required ≡ false)
    → IsGuard (accept now o resetting s).1
unfolding accept
accept-IsGuard now o resetting s h only = ground arith
