-- ===== src/Fault/Sequence.antt =====
-- The reset sequence of src/functional_model/diagnostics/fault.py, phase by phase.
use ethercat_device_simulato.Prelude.{
  ℕ, ◌≡◌, arith, true, false, none, some, List, [], ◌∷◌, length, has, bit_and, get_elem?,
}
use ethercat_device_simulato.Fault.{
  Phase, normal, fault, verify_reset, shutdown, switch_on, enable, AxisFault, prepare, accept,
}
use ethercat_device_simulato.Fault.Invariant.{IsGuard}
use ethercat_device_simulato.Fault.Recovery.{controlword}
use ethercat_device_simulato.Fault.Exchange.{cycle, output, exchange, exchanges}

-- A guard in a phase of the recovery, for feedback of `n` bytes.
pub record Recovering (n : ℕ) (p : Phase) (s : AxisFault) : Type 0 where
  pub guard : IsGuard s
  pub in_phase : s.phase ≡ p
  pub no_restart : s.restart_required ≡ false
  pub sized : length s.last ≡ n

-- An output of the right length without the fault bit.
pub record IsHealthy (n : ℕ) (o : List ℕ) : Type 0 where
  pub sized : length o ≡ n
  pub no_fault : has (controlword o) 8 ≡ false

module _ (n now : ℕ) (p o : List ℕ) (s : AxisFault) (healthy : IsHealthy n o) where
  reset_step :
      Recovering n fault s
      → has s.previous_cw 0x80 ≡ false
      → has (controlword p) 0x80 ≡ true
      → Recovering n verify_reset (exchange (cycle now p (output o)) s)
  unfolding exchange prepare accept
  reset_step r before rising = ground arith

  verify_step :
      Recovering n verify_reset s
      → has (controlword p) 0x80 ≡ false
      → Recovering n shutdown (exchange (cycle now p (output o)) s)
  unfolding exchange prepare accept
  verify_step r low = ground arith

  shutdown_step :
      Recovering n shutdown s
      → bit_and (controlword p) 0x8f ≡ 6
      → Recovering n switch_on (exchange (cycle now p (output o)) s)
  unfolding exchange prepare accept
  shutdown_step r cw = ground arith

  switch_on_step :
      Recovering n switch_on s
      → bit_and (controlword p) 0x8f ≡ 7
      → Recovering n enable (exchange (cycle now p (output o)) s)
  unfolding exchange prepare accept
  switch_on_step r cw = ground arith

  enable_step :
      Recovering n enable s
      → bit_and (controlword p) 0x8f ≡ 15
      → has (controlword p) 0x10 ≡ false
      → get_elem? p 2 ≡ some 1
      → Recovering n normal (exchange (cycle now p (output o)) s)
  unfolding exchange prepare accept
  enable_step r cw bit mode = ground arith

no_diagnosis : (s : AxisFault) → IsGuard s → s.phase ≡ normal → s.diagnosis ≡ none
no_diagnosis s g h = ground arith

-- A faulted axis that needs no restart, with the reset bit low before, is in phase normal with no
-- fault on record after these five cycles, if the model answers each with a healthy output:
-- reset bit high, reset bit low, Shutdown, Switch On, and Enable Operation with the new-setpoint bit
-- clear in profile position mode.
pub recovery_sequence :
    (n now : ℕ) (p₁ p₂ p₃ p₄ p₅ o₁ o₂ o₃ o₄ o₅ : List ℕ) (s : AxisFault)
    → Recovering n fault s
    → IsHealthy n o₁
    → IsHealthy n o₂
    → IsHealthy n o₃
    → IsHealthy n o₄
    → IsHealthy n o₅
    → has s.previous_cw 0x80 ≡ false
    → has (controlword p₁) 0x80 ≡ true
    → has (controlword p₂) 0x80 ≡ false
    → bit_and (controlword p₃) 0x8f ≡ 6
    → bit_and (controlword p₄) 0x8f ≡ 7
    → bit_and (controlword p₅) 0x8f ≡ 15
    → has (controlword p₅) 0x10 ≡ false
    → get_elem? p₅ 2 ≡ some 1
    → let c = λ (p o : List ℕ). cycle now p (output o) in
      let t = exchanges (c p₁ o₁ ∷ c p₂ o₂ ∷ c p₃ o₃ ∷ c p₄ o₄ ∷ c p₅ o₅ ∷ []) s in
      (t.phase ≡ normal) × (t.diagnosis ≡ none)
unfolding exchanges
recovery_sequence n now p₁ p₂ p₃ p₄ p₅ o₁ o₂ o₃ o₄ o₅ s r h₁ h₂ h₃ h₄ h₅ before e₁ e₂ e₃ e₄ e₅ bit
      mode =
    let r₁ = reset_step n now p₁ o₁ s h₁ r before e₁ in
    let r₂ = verify_step n now p₂ o₂ _ h₂ r₁ e₂ in
    let r₃ = shutdown_step n now p₃ o₃ _ h₃ r₂ e₃ in
    let r₄ = switch_on_step n now p₄ o₄ _ h₄ r₃ e₄ in
    let r₅ = enable_step n now p₅ o₅ _ h₅ r₄ e₅ bit mode in
    (r₅.in_phase, no_diagnosis _ r₅.guard r₅.in_phase)
