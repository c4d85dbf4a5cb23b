-- ===== src/StateMachine/Commands.antt =====
-- The mask tests of `process` against the CiA 402 command table, read off the controlword's bits.
use ethercat_device_simulato.Prelude.{
  ℕ, ◌-◌, ◌/◌, ◌%◌, ◌≡◌, ℤ, pos, negsuc, arith, if◌then◌else◌, ◌==◌, mask_0x80, mask_0x87,
  mask_0x8f,
}
use ethercat_device_simulato.StateMachine.{
  CiA402State, switch_on_disabled, ready_to_switch_on, switched_on, operation_enabled, fault,
  process,
}

pub data Command : Type 0 where
  fault_reset disable_voltage shutdown switch_on enable_operation no_command : Command

-- The low eight bits of a controlword, in two's complement.
pub low_byte : ℤ → ℕ
low_byte (pos n) = n % 256
low_byte (negsuc n) = 255 - n % 256

-- Bit 7 is the fault reset; without it bits 3 to 0 select the command.
pub command_of_byte : ℕ → Command
command_of_byte b =
    if b / 128 == 1
    then fault_reset
    else if b % 8 == 0
    then disable_voltage
    else if b % 8 == 6
    then shutdown
    else if b % 16 == 7
    then switch_on
    else if b % 16 == 15
    then enable_operation
    else no_command

unfoldable pub command : ℤ → Command
unfolding low_byte command_of_byte
command cw = command_of_byte (low_byte cw)

-- The transition table.
unfoldable pub next : CiA402State → Command → CiA402State
next fault fault_reset = switch_on_disabled
next s fault_reset = s
next s disable_voltage = switch_on_disabled
next switch_on_disabled shutdown = ready_to_switch_on
next ready_to_switch_on switch_on = switched_on
next switched_on enable_operation = operation_enabled
next switched_on shutdown = ready_to_switch_on
next operation_enabled switch_on = switched_on
next operation_enabled shutdown = ready_to_switch_on
next s _ = s

-- For every controlword, negative ones included, and every state, `process` moves as the table says
-- for the command that the low byte of the controlword encodes.
pub process-eq-next : (cw : ℤ) (s : CiA402State) → process cw s ≡ next s (command cw)
unfolding process next command
process-eq-next (pos n) switch_on_disabled = ground (arith, mask_0x80 n, mask_0x87 n, mask_0x8f n)
process-eq-next (pos n) _ = ground (arith, mask_0x80 n, mask_0x87 n, mask_0x8f n)
process-eq-next (negsuc n) switch_on_disabled =
    ground (arith, mask_0x80 n, mask_0x87 n, mask_0x8f n)
process-eq-next (negsuc n) _ = ground (arith, mask_0x80 n, mask_0x87 n, mask_0x8f n)
