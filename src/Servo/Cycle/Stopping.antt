-- ===== src/Servo/Cycle/Stopping.antt =====
-- Cycles in which the drive is not enabled: `process_cycle` of
-- src/functional_model/cia402_drive/behaviour_model/f_kr_cmmt/servo_model.py.
use ethercat_device_simulato.Prelude.{◌==◌, subst, sym, arith, ◌≡◌, refl, true, false, ℤ}
use ethercat_device_simulato.Exec.{
  ok, Exec, modify, ◌>>=◌, ◌>>◌, Keeps, bind-Keeps, bind_after-Ensures,
}
use ethercat_device_simulato.Numbers.{Numbers, Registers}
use ethercat_device_simulato.StateMachine.{process, get_statusword}
use ethercat_device_simulato.Servo.{Servo, read, is_enabled, zero_number, stop_at_current_position}
use ethercat_device_simulato.Servo.Homing.{process_homing}
use ethercat_device_simulato.Servo.Position.{process_pp}
use ethercat_device_simulato.Servo.Synchronous.{process_csp}
use ethercat_device_simulato.Servo.Velocity.{process_pv, process_jog}
use ethercat_device_simulato.Servo.Cycle.{
  run_mode, command_state, publish_statusword, process_cycle, software_limit_is_active,
}
use ethercat_device_simulato.Servo.Commands.{exceeds_software_limits, software_position_limits}

module _ {O N : Type 0} (nums : Numbers N) (regs : Registers O N) where
  run_mode-disabled :
      (mode : N) (s : Servo O N)
      → is_enabled nums regs s ≡ false
      → run_mode nums regs mode s ≡ (ok tt, s)
  unfolding run_mode process_pp process_pv process_csp process_homing process_jog ◌>>=◌
  run_mode-disabled mode s h = ground arith

  command_state-position :
      (cw : ℤ) (s : Servo O N)
      → (command_state nums regs cw s).1.actual_position ≡ s.actual_position
  unfolding command_state stop_at_current_position ◌>>=◌
  command_state-position cw s = ground arith

  command_state-sm :
      (cw : ℤ) (s : Servo O N) → (command_state nums regs cw s).1.sm ≡ process cw s.sm
  unfolding command_state stop_at_current_position ◌>>=◌
  command_state-sm cw s = ground arith

  command_state-velocity :
      (cw : ℤ) (s : Servo O N)
      → is_enabled nums regs s ≡ true
      → (get_statusword (process cw s.sm) == 0x27) ≡ false
      → (command_state nums regs cw s).1.actual_velocity ≡ zero_number nums regs
  unfolding command_state stop_at_current_position ◌>>=◌
  command_state-velocity cw s h k = ground arith

  abbrev read_mode : Exec (Servo O N) N
  read_mode = read nums regs 0x6060 0

  -- What follows the controlword's action in the cycle.
  abbrev rest_of_cycle : ℤ → Exec (Servo O N) (Unit {0})
  rest_of_cycle cw = do
    mode ← read_mode
    run_mode nums regs mode
    publish_statusword nums regs mode
    modify (λ s. record s { previous_controlword = cw })

  abbrev Stopped : N → Servo O N → Servo O N → Type 0
  Stopped velocity t s =
      (s.actual_position ≡ t.actual_position) × (s.actual_velocity ≡ velocity) × (s.sm ≡ t.sm)

  publish-Keeps :
      (mode velocity : N) (t : Servo O N)
      → Keeps (Stopped velocity t) (publish_statusword nums regs mode)
  unfolding publish_statusword software_limit_is_active exceeds_software_limits
      software_position_limits ◌>>=◌
  publish-Keeps mode velocity t s h = ground arith

  mode-Keeps :
      (mode velocity : N) (t : Servo O N)
      → (get_statusword t.sm == 0x27) ≡ false
      → Keeps (Stopped velocity t) (run_mode nums regs mode)
  mode-Keeps mode velocity t k s h =
      subst (λ r. Stopped velocity t r.1)
        (sym
          (run_mode-disabled mode s (subst (λ m. (get_statusword m == 0x27) ≡ false) (sym h.2) k)))
        h

  rest-Keeps :
      (cw : ℤ) (velocity : N) (t : Servo O N)
      → (get_statusword t.sm == 0x27) ≡ false
      → Keeps (Stopped velocity t) (rest_of_cycle cw)
  rest-Keeps cw velocity t k =
      bind-Keeps (Stopped velocity t) read_mode _ (λ s h. h)
        (λ mode.
          bind-Keeps (Stopped velocity t) (run_mode nums regs mode) _ (mode-Keeps mode velocity t k)
            (λ _.
              bind-Keeps (Stopped velocity t) (publish_statusword nums regs mode)
                (λ _. modify (λ s. record s { previous_controlword = cw }))
                (publish-Keeps mode velocity t) (λ _ s h. h)))

  after_command :
      (cw : ℤ) (velocity : N) (t s : Servo O N)
      → (get_statusword t.sm == 0x27) ≡ false
      → Stopped velocity t (command_state nums regs cw s).1
      → Stopped velocity t ((command_state nums regs cw >> rest_of_cycle cw) s).1
  after_command cw velocity t s k h =
      bind_after-Ensures {P = λ r. r ≡ s} {Q = Stopped velocity t} (command_state nums regs cw)
        (λ _. rest_of_cycle cw)
        (λ r e. subst (λ r. Stopped velocity t (command_state nums regs cw r).1) (sym e) h)
        (λ _. rest-Keeps cw velocity t k) s refl

  process_cycle-eq :
      (s : Servo O N) (word : N) (cw : ℤ)
      → regs.read 0x6040 0 s.od ≡ ok word
      → nums.to_index word ≡ ok cw
      → process_cycle nums regs s ≡ (command_state nums regs cw >> rest_of_cycle cw) s
  unfolding process_cycle ◌>>=◌
  process_cycle-eq s word cw h k = rw (h, k)

  -- A cycle whose controlword `cw` takes an enabled drive out of Operation enabled ends, whether or not
  -- it raises, with the drive in the state that `cw` commands, its position unchanged and its
  -- velocity zero.
  pub process_cycle_stops :
      (s : Servo O N) (word : N) (cw : ℤ)
      → regs.read 0x6040 0 s.od ≡ ok word
      → nums.to_index word ≡ ok cw
      → is_enabled nums regs s ≡ true
      → (get_statusword (process cw s.sm) == 0x27) ≡ false
      → let s' = (process_cycle nums regs s).1 in
        (s'.actual_position ≡ s.actual_position)
        × (s'.actual_velocity ≡ zero_number nums regs)
        × (s'.sm ≡ process cw s.sm)
  process_cycle_stops s word cw h k enabled leaves =
      subst (λ r. Stopped (zero_number nums regs) (record s { sm = process cw s.sm }) r.1)
        (sym (process_cycle-eq s word cw h k))
        (after_command cw (zero_number nums regs) (record s { sm = process cw s.sm }) s leaves
          (
            command_state-position cw s,
            command_state-velocity cw s enabled leaves,
            command_state-sm cw s,
          ))
