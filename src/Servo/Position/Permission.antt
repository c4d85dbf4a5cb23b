-- ===== src/Servo/Position/Permission.antt =====
-- When profile position moves: `process_pp` of
-- src/functional_model/cia402_drive/behaviour_model/f_kr_cmmt/servo_model.py.
use ethercat_device_simulato.Prelude.{
  ℕ, subst, sym, ap, ◌∙◌, arith, ◌≡◌, refl, Bool, true, false, not, ◌&&◌, if◌then◌else◌, ℤ,
}
use ethercat_device_simulato.Exec.{
  Keeps, Ensures, bind-Keeps, bind-Ensures, if-holds, lift, modify, ◌>>=◌, ◌>>◌, when,
}
use ethercat_device_simulato.Numbers.{Numbers, Registers}
use ethercat_device_simulato.Servo.{
  Servo, zero_number, read_magnitude, move_towards, read, bit_set, is_enabled,
  write_actual_feedback, decelerate_to_stop, integrate, update_target_reached, is_in_position,
  velocity_to_position_rate, acceleration_to_velocity_delta,
}
use ethercat_device_simulato.Servo.Position.{
  process_pp, pp_halted, pp_unreferenced, pp_referenced, new_setpoint, pp_move, take_setpoint,
  refuse_setpoint, answer_word, pp_idle, slow_down, follow,
}

rejected : (b : Bool) → not b ≡ false → b ≡ true
rejected b h = ground arith

module _ {O N : Type 0} (nums : Numbers N) (regs : Registers O N) where
  abbrev pub nil : N
  nil = zero_number nums regs

  -- The profile is not active, and the velocity is zero.
  abbrev pub Idle : Servo O N → Type 0
  Idle s = (s.pp_active ≡ false) × (s.actual_velocity ≡ nil)

-- `small`: the difference of zero and zero is at most every number that is not at most zero. It holds of
-- Python's numbers but NaN.
module _ {O N : Type 0} (nums : Numbers N) (regs : Registers O N)
    (small : (m : N)
      → nums.le m (nil nums regs) ≡ false
      → nums.le (nums.abs (nums.sub (nil nums regs) (nil nums regs))) m ≡ true) where
  abbrev Rest : Servo O N → Type 0
  Rest = Idle nums regs

  stays : (m : N) → move_towards nums regs (nil nums regs) (nil nums regs) m ≡ nil nums regs
  unfolding move_towards
  stays m = ground (arith, small m)

  slowed :
      (m : N) (s : Servo O N)
      → Rest s
      → Rest (record s {
        actual_velocity = move_towards nums regs s.actual_velocity (nil nums regs) m;
      })
  slowed m s h = (h.0, ap (λ v. move_towards nums regs v (nil nums regs) m) h.1 ∙ stays m)

  magnitude-Keeps : (index sub : ℕ) → Keeps Rest (read_magnitude nums regs index sub)
  magnitude-Keeps index sub = bind-Keeps Rest _ _ (λ s h. h) (λ v s h. h)

  delta-Keeps : (a : N) → Keeps Rest (acceleration_to_velocity_delta nums regs a)
  unfolding acceleration_to_velocity_delta ◌>>=◌
  delta-Keeps a s h = ground (arith, h.0, h.1)

  integrate-Keeps : Keeps Rest (integrate nums regs)
  unfolding integrate ◌>>=◌ velocity_to_position_rate
  integrate-Keeps s h = ground (arith, h.0, h.1)

  decelerate-Keeps : Keeps Rest (decelerate_to_stop nums regs)
  unfolding decelerate_to_stop
  decelerate-Keeps = bind-Keeps Rest _ _ (magnitude-Keeps 0x6084 0) (λ decel.
      bind-Keeps Rest _ _ (delta-Keeps decel)
        (λ delta. bind-Keeps Rest _ _ (slowed delta) (λ _. integrate-Keeps)))

  feedback-Keeps : Keeps Rest (write_actual_feedback nums regs)
  unfolding write_actual_feedback ◌>>=◌
  feedback-Keeps s h = ground (arith, h.0, h.1)

  slow_down-Keeps : Keeps Rest (slow_down nums regs)
  slow_down-Keeps =
      bind-Keeps Rest (decelerate_to_stop nums regs) (λ _. write_actual_feedback nums regs)
        decelerate-Keeps (λ _. feedback-Keeps)

  reached-Keeps : Keeps Rest (update_target_reached nums regs)
  unfolding update_target_reached is_in_position ◌>>=◌
  reached-Keeps s h = ground (arith, h.0, h.1)

  -- The drive may follow a new target.
  abbrev pub may_move : Servo O N → Bool
  may_move s =
      is_enabled nums regs s
      && (not s.halt_active && (s.homing_referenced && not s.position_target_rejected))

  -- What `process_pp` does keeps the profile idle where it starts no motion.
  halted-Keeps : Keeps Rest (pp_halted nums regs)
  unfolding pp_halted
  halted-Keeps s h =
      bind-Ensures {P = Rest} {Q = Rest}
        (modify (λ s. record s { pp_active = false; pp_setpoint_ack = false })) _
        (λ s h. (refl, h.1))
        (λ _. bind-Keeps Rest (slow_down nums regs) _ slow_down-Keeps (λ _ s h. h)) (λ s h. h) s h

  unreferenced-Keeps : Keeps Rest (pp_unreferenced nums regs)
  unfolding pp_unreferenced
  unreferenced-Keeps s h =
      bind-Keeps Rest
        (modify
          (λ s. record s { pp_active = false; pp_setpoint_ack = false; target_reached = false }))
        _ (λ s h. (refl, h.1)) (λ _. slow_down-Keeps) s h

  pp_idle-Keeps : Keeps Rest (pp_idle nums regs)
  unfolding pp_idle
  pp_idle-Keeps s h =
      bind-Keeps Rest (slow_down nums regs) _ slow_down-Keeps (λ _. reached-Keeps) s h

  refuse-Keeps : Keeps Rest (refuse_setpoint nums regs)
  unfolding refuse_setpoint
  refuse-Keeps s h =
      bind-Keeps Rest (modify (λ s. record s { pp_active = false; pp_setpoint_ack = false })) _
        (λ s h. (refl, h.1)) (λ _. slow_down-Keeps) s h

  move-Keeps : (cw : ℤ) → Keeps Rest (pp_move nums regs cw)
  unfolding pp_move ◌>>=◌
  move-Keeps cw s h =
      subst
        (λ b.
          Rest
            ((if b then follow nums regs else pp_idle nums regs)
              (record s { pp_setpoint_ack = bit_set cw 0x10 })).1)
        (sym h.0) (pp_idle-Keeps _ h)

  abbrev Refusing : Servo O N → Type 0
  Refusing s = Rest s × (s.position_target_rejected ≡ true)

  setpoint-Keeps :
      (cw : ℤ) (s : Servo O N)
      → s.position_target_rejected ≡ true
      → Rest s
      → Rest (new_setpoint nums regs cw s).1
  unfolding new_setpoint ◌>>=◌
  setpoint-Keeps cw s k h =
      subst
        (λ b.
          Rest
            ((if b
                then refuse_setpoint nums regs
                else (take_setpoint nums regs >> pp_move nums regs cw))
              s).1)
        (sym k) (refuse-Keeps s h)

  answer-Keeps : (cw : ℤ) (s : Servo O N) → Refusing s → Rest (answer_word nums regs cw s).1
  unfolding answer_word ◌>>=◌
  answer-Keeps cw s h =
      if-holds (λ m. Rest (m s).1) (bit_set cw 0x10 && not (bit_set s.previous_controlword 0x10))
        (new_setpoint nums regs cw) (pp_move nums regs cw) (setpoint-Keeps cw s h.1 h.0)
        (move-Keeps cw s h.0)

  referenced-Keeps : Ensures Refusing (pp_referenced nums regs) Rest
  unfolding pp_referenced
  referenced-Keeps =
      bind-Ensures {P = Refusing} {Q = Rest} (read nums regs 0x6040 0) _ (λ s h. h)
        (λ word.
          bind-Ensures {P = Refusing} {Q = Rest} (lift (nums.to_index word)) (answer_word nums regs)
            (λ s h. h) answer-Keeps (λ s h. h.0))
        (λ s h. h.0)

  permitted-Keeps :
      (enabled halted referenced : Bool) (s : Servo O N)
      → Rest s
      → (enabled && (not halted && (referenced && not s.position_target_rejected))) ≡ false
      → Rest
          (when enabled
            (if halted
              then pp_halted nums regs
              else if referenced
              then pp_referenced nums regs
              else pp_unreferenced nums regs)
            s).1
  permitted-Keeps false halted referenced s h k = h
  permitted-Keeps true true referenced s h k = halted-Keeps s h
  permitted-Keeps true false false s h k = unreferenced-Keeps s h
  permitted-Keeps true false true s h k =
      referenced-Keeps s (h, rejected s.position_target_rejected k)

  -- Where `small` holds of the numbers: a drive in profile position with no active profile and velocity
  -- zero that is not enabled, is halted, has no reference or whose last target was rejected ends a cycle,
  -- returned or raised, with no active profile and velocity zero, whatever the controlword asks.
  pub process_pp_starts_nothing :
      (s : Servo O N)
      → s.pp_active ≡ false
      → s.actual_velocity ≡ nil nums regs
      → may_move s ≡ false
      → ((process_pp nums regs s).1.pp_active ≡ false)
        × ((process_pp nums regs s).1.actual_velocity ≡ nil nums regs)
  unfolding process_pp ◌>>=◌
  process_pp_starts_nothing s p v k =
      permitted-Keeps (is_enabled nums regs s) s.halt_active s.homing_referenced s (p, v) k
