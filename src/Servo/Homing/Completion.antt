-- ===== src/Servo/Homing/Completion.antt =====
-- The count of homing cycles: `process_homing` of
-- src/functional_model/cia402_drive/behaviour_model/f_kr_cmmt/servo_model.py.
use ethercat_device_simulato.Prelude.{
  ℕ, zero, suc, ◌-◌, ℤ, ◌≡◌, refl, sym, true, false, not, ◌&&◌, ltb, arith,
}
use ethercat_device_simulato.Exec.{Result, ok, Exec, modify, ◌>>=◌, ◌>>◌}
use ethercat_device_simulato.Numbers.{Numbers, Registers}
use ethercat_device_simulato.Servo.{Servo, zero_number, bit_set, is_enabled}
use ethercat_device_simulato.Servo.Homing.{count_down, run_homing, process_homing}

one_less : (n : ℕ) → suc (suc n) - 1 ≡ suc n
one_less n = omega arith

positive : (n : ℕ) → ltb 0 (suc n) ≡ true
positive n = ground arith

module _ {O N : Type 0} (nums : Numbers N) (regs : Registers O N) where
  -- `n` cycles in the homing mode
  unfoldable pub homing_cycles : ℕ → Exec (Servo O N) (Unit {0})
  homing_cycles zero = modify (λ s. s)
  homing_cycles (suc n) = process_homing nums regs >> homing_cycles n

  -- The master holds the controlword: no rising edge of the start bit.
  pub record Homing (word : N) (cw : ℤ) (s : Servo O N) : Type 0 where
    pub reads : regs.read 0x6040 0 s.od ≡ ok word
    pub index : nums.to_index word ≡ ok cw
    pub no_edge : (bit_set cw 0x10 && not (bit_set s.previous_controlword 0x10)) ≡ false
    pub enabled : is_enabled nums regs s ≡ true
    pub active : s.homing_active ≡ true

  process_homing-eq :
      (s : Servo O N) (word : N) (cw : ℤ)
      → Homing word cw s
      → process_homing nums regs s ≡ count_down nums regs s
  unfolding process_homing run_homing ◌>>=◌
  process_homing-eq s word cw h = rw (h.enabled, h.reads, h.index, h.no_edge, h.active)

  still :
      {s : Servo O N} {word : N} {cw : ℤ} {n : ℕ}
      → Homing word cw s
      → Homing word cw (record s { homing_counter = n })
  still h = record {
    reads = h.reads;
    index = h.index;
    no_edge = h.no_edge;
    enabled = h.enabled;
    active = h.active;
  }

  -- A cycle that does not bring the counter to zero only counts.
  wait :
      (n : ℕ) (s : Servo O N)
      → s.homing_counter ≡ suc (suc n)
      → count_down nums regs s ≡ (ok tt, record s { homing_counter = suc n })
  unfolding count_down ◌>>=◌
  wait n s h = rw (h, one_less n, positive n)

  -- The drive stands at its reference position.
  abbrev pub Referenced : Result (Unit {0}) × Servo O N → Type 0
  Referenced r =
      (r.0 ≡ ok tt)
      × (r.1.homing_referenced ≡ true)
      × (r.1.homing_active ≡ false)
      × (r.1.target_reached ≡ true)
      × (r.1.actual_position ≡ zero_number nums regs)
      × (r.1.actual_velocity ≡ zero_number nums regs)

  -- With the controlword held, homing that has `n + 1` cycles to go only counts for `n` cycles.
  pub count_waits :
      (n : ℕ) (s : Servo O N) (word : N) (cw : ℤ)
      → Homing word cw s
      → s.homing_counter ≡ suc n
      → homing_cycles n s ≡ (ok tt, record s { homing_counter = 1 })
  unfolding homing_cycles ◌>>=◌
  count_waits zero s word cw active h = rw (sym h)
  count_waits (suc n) s word cw active h =
      rw (process_homing-eq s word cw active, wait n s h)
        (count_waits n (record s { homing_counter = suc n }) word cw (still active) refl)
