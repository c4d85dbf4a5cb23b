-- ===== src/StateMachine/Enabling.antt =====
-- What a sequence of controlwords can do to the state machine.
use mathlib.Core.List.{Sublistᴰ}
use ethercat_device_simulato.Prelude.{◌≡◌, ◌≢◌, refl, sym, subst, ℤ, arith, List, [], ◌∷◌, map}
use ethercat_device_simulato.StateMachine.{
  CiA402State, switch_on_disabled, ready_to_switch_on, switched_on, operation_enabled, fault,
  process, run, get_statusword,
}
use ethercat_device_simulato.StateMachine.Commands.{
  Command, fault_reset, disable_voltage, shutdown, switch_on, enable_operation, command, next,
  process-eq-next,
}

-- The commands that a state still needs before operation is enabled.
abbrev needed : CiA402State → List Command
needed operation_enabled = []
needed switched_on = enable_operation ∷ []
needed ready_to_switch_on = switch_on ∷ enable_operation ∷ []
needed _ = shutdown ∷ switch_on ∷ enable_operation ∷ []

module _ {A : Type 0} where
  nothing-Sublist : (l : List A) → Sublistᴰ [] l
  nothing-Sublist [] = Sublistᴰ.slnil
  nothing-Sublist (x ∷ l) = Sublistᴰ.cons (nothing-Sublist l)

  Sublist-tail : {a : A} {k l : List A} → Sublistᴰ (a ∷ k) l → Sublistᴰ k l
  Sublist-tail (Sublistᴰ.cons h) = Sublistᴰ.cons (Sublist-tail h)
  Sublist-tail (Sublistᴰ.cons-cons e h) = Sublistᴰ.cons h

  keep : (a : A) {k l : List A} → Sublistᴰ k l → Sublistᴰ (a ∷ k) (a ∷ l)
  keep a h = Sublistᴰ.cons-cons refl h

-- What was needed after one command was needed before it, but for that command.
needed-next :
    (s : CiA402State) (c : Command) (l : List Command)
    → Sublistᴰ (needed (next s c)) l
    → Sublistᴰ (needed s) (c ∷ l)
unfolding next
needed-next operation_enabled c l h = nothing-Sublist (c ∷ l)
needed-next switched_on fault_reset l h = Sublistᴰ.cons h
needed-next switched_on disable_voltage l h = Sublistᴰ.cons (Sublist-tail (Sublist-tail h))
needed-next switched_on shutdown l h = Sublistᴰ.cons (Sublist-tail h)
needed-next switched_on enable_operation l h = keep enable_operation h
needed-next switched_on _ l h = Sublistᴰ.cons h
needed-next ready_to_switch_on disable_voltage l h = Sublistᴰ.cons (Sublist-tail h)
needed-next ready_to_switch_on switch_on l h = keep switch_on h
needed-next ready_to_switch_on _ l h = Sublistᴰ.cons h
needed-next switch_on_disabled shutdown l h = keep shutdown h
needed-next switch_on_disabled _ l h = Sublistᴰ.cons h
needed-next fault fault_reset l h = Sublistᴰ.cons h
needed-next fault _ l h = Sublistᴰ.cons h

run_needs :
    (cws : List ℤ) (s : CiA402State)
    → run cws s ≡ operation_enabled
    → Sublistᴰ (needed s) (map command cws)
unfolding run
run_needs [] s h = subst (λ t. Sublistᴰ (needed t) []) (sym h) Sublistᴰ.slnil
run_needs (cw ∷ cws) s h =
    needed-next s (command cw) (map command cws)
      (rw (process-eq-next cw s) at (run_needs cws (process cw s) h))

-- Operation is enabled from switch-on-disabled only if the controlwords held a Shutdown, later a
-- Switch On and later still an Enable Operation.
pub run-operation_enabled_needs :
    (cws : List ℤ)
    → run cws switch_on_disabled ≡ operation_enabled
    → Sublistᴰ (shutdown ∷ switch_on ∷ enable_operation ∷ []) (map command cws)
run-operation_enabled_needs cws h = run_needs cws switch_on_disabled h

-- From every state but fault the controlwords for Shutdown, Switch On and Enable Operation, one
-- cycle each, end in operation-enabled, and the statusword is then 0x27.
pub run-enable_sequence :
    (a b c : ℤ) (s : CiA402State)
    → s ≢ fault
    → command a ≡ shutdown
    → command b ≡ switch_on
    → command c ≡ enable_operation
    → (run (a ∷ b ∷ c ∷ []) s ≡ operation_enabled)
      × (get_statusword (run (a ∷ b ∷ c ∷ []) s) ≡ 0x27)
unfolding run next get_statusword
run-enable_sequence a b c s ok ha hb hc = simp (process-eq-next, ha, hb, hc) (ground arith)

process-ne-fault : (cw : ℤ) (s : CiA402State) → s ≢ fault → process cw s ≢ fault
unfolding next
process-ne-fault cw s h = rw process-eq-next (ground arith)

statusword-ne-0x08 : (s : CiA402State) → s ≢ fault → get_statusword s ≢ 0x08
unfolding get_statusword
statusword-ne-0x08 s h = ground arith

-- Whatever the controlwords, a machine that starts outside fault never enters it; so the fault code
-- 0x08 is never its statusword.
pub run_never_fault :
    (cws : List ℤ) (s : CiA402State)
    → s ≢ fault
    → (run cws s ≢ fault) × (get_statusword (run cws s) ≢ 0x08)
unfolding run
run_never_fault [] s h = (h, statusword-ne-0x08 s h)
run_never_fault (cw ∷ cws) s h = run_never_fault cws (process cw s) (process-ne-fault cw s h)
