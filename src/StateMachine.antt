-- ===== src/StateMachine.antt =====
-- The CiA 402 power state machine:
-- src/functional_model/cia402_drive/behaviour_model/f_kr_cmmt/state_machine.py.
-- A controlword is a Python `int`, of any sign; `self.state` is the argument and the result.
pub mod Commands
pub mod Enabling
mod Tests
use ethercat_device_simulato.Prelude.{ℕ, ℤ, Bool, not, if◌then◌else◌, ◌==◌, and_ℤ, List, [], ◌∷◌}

pub data CiA402State : Type 0 where
  switch_on_disabled ready_to_switch_on switched_on operation_enabled fault : CiA402State

-- `CiA402StateMachine.__init__`
abbrev pub initial : CiA402State
initial = switch_on_disabled

-- The `if self.state == FAULT` inside the reset branch.
reset_fault : CiA402State → CiA402State
reset_fault fault = switch_on_disabled
reset_fault s = s

-- The ladder over `self.state` after the two early returns.
by_state : ℤ → CiA402State → CiA402State
by_state cw switch_on_disabled =
    if and_ℤ cw 0x87 == 0x06 then ready_to_switch_on else switch_on_disabled
by_state cw ready_to_switch_on =
    if and_ℤ cw 0x8f == 0x07
    then switched_on
    else if and_ℤ cw 0x87 == 0
    then switch_on_disabled
    else ready_to_switch_on
by_state cw switched_on =
    if and_ℤ cw 0x8f == 0x0f
    then operation_enabled
    else if and_ℤ cw 0x87 == 0x06
    then ready_to_switch_on
    else if and_ℤ cw 0x87 == 0
    then switch_on_disabled
    else switched_on
by_state cw operation_enabled =
    if and_ℤ cw 0x8f == 0x07
    then switched_on
    else if and_ℤ cw 0x87 == 0x06
    then ready_to_switch_on
    else if and_ℤ cw 0x87 == 0
    then switch_on_disabled
    else operation_enabled
by_state cw fault = if not (and_ℤ cw 0x80 == 0) then switch_on_disabled else fault

-- `process(controlword)`
unfoldable pub process : ℤ → CiA402State → CiA402State
unfolding reset_fault by_state
process cw s =
    if not (and_ℤ cw 0x80 == 0)
    then reset_fault s
    else if and_ℤ cw 0x87 == 0
    then switch_on_disabled
    else by_state cw s

-- `get_statusword()`
unfoldable pub get_statusword : CiA402State → ℕ
get_statusword switch_on_disabled = 0x40
get_statusword ready_to_switch_on = 0x21
get_statusword switched_on = 0x23
get_statusword operation_enabled = 0x27
get_statusword fault = 0x08

-- One `process` for each controlword, the first one first.
unfoldable pub run : List ℤ → CiA402State → CiA402State
run [] s = s
run (cw ∷ cws) s = run cws (process cw s)
