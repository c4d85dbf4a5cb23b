-- ===== src/Servo/Cycle/Bits.antt =====
-- What the statusword says: the bits that `process_cycle` composes in
-- src/functional_model/cia402_drive/behaviour_model/f_kr_cmmt/servo_model.py.
use ethercat_device_simulato.Prelude.{arith, ℕ, ◌≡◌, Bool, false, ◌&&◌, has, bit_and}
use ethercat_device_simulato.Numbers.{Numbers, Registers}
use ethercat_device_simulato.StateMachine.{CiA402State, get_statusword}
use ethercat_device_simulato.Servo.{Servo}
use ethercat_device_simulato.Servo.Cycle.{set_if, is_moving, compose_statusword}

-- The word composed of a state and the flags.
compose : CiA402State → Bool → Bool → Bool → Bool → Bool → ℕ
compose state reached ack moving limited referenced = set_if referenced 0x8000 (
    set_if limited 0x800 (
      set_if limited 0x80
        (set_if moving 0x100 (set_if ack 0x1000 (set_if reached 0x400 (get_statusword state))))))

-- Each flag has its bit, and the bits of the state are as `get_statusword` gives them.
abbrev pub Shows : ℕ → CiA402State → Bool → Bool → Bool → Bool → Bool → Type 0
Shows w state reached ack moving limited referenced =
    (bit_and w 0x6f ≡ get_statusword state)
    × (has w 0x400 ≡ reached)
    × (has w 0x1000 ≡ ack)
    × (has w 0x100 ≡ moving)
    × (has w 0x800 ≡ limited)
    × (has w 0x80 ≡ limited)
    × (has w 0x8000 ≡ referenced)

compose_flags :
    (state : CiA402State) (a b c d e : Bool) → Shows (compose state a b c d e) state a b c d e
unfolding compose get_statusword
compose_flags state a b c d e = ground arith

module _ {O N : Type 0} (nums : Numbers N) (regs : Registers O N) where
  -- Unless a homing error shows in the homing mode, the statusword has the bits of the power state,
  -- and bit 10 for target reached, 12 for the setpoint acknowledge, 8 for a moving drive, 11 and 7 for
  -- an active software limit and 15 for a referenced drive.
  pub compose_statusword_lem :
      (homing_mode limited : Bool) (s : Servo O N)
      → (homing_mode && s.homing_error) ≡ false
      → Shows
          (compose_statusword nums regs homing_mode limited s)
          s.sm
          s.target_reached
          s.pp_setpoint_ack
          (is_moving nums regs s)
          limited
          s.homing_referenced
  unfolding compose_statusword compose
  compose_statusword_lem homing_mode limited s h = rw h (
      compose_flags s.sm s.target_reached s.pp_setpoint_ack (is_moving nums regs s) limited
        s.homing_referenced)
