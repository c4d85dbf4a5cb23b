-- ===== src/Axis/Dispatch/Guarding.antt =====
-- The guard's well-formedness over the requests of src/functional_model/runtime/axis.py.
use ethercat_device_simulato.Prelude.{
  ℕ, ◌≡◌, refl, sym, subst, ◌∙◌, ap, arith, Bool, true, false, Option, none, some, List, ◌==◌, not,
  ◌&&◌, take,
}
use ethercat_device_simulato.Exec.{
  Error, Result, ok, err, Exec, Ensures, Keeps, ◌>>=◌, bind-Ensures, bind_after-Ensures,
  catching-Ensures, bind-Keeps, go_on, check-Keeps, when-Keeps, if-Keeps, if-holds, catching-Keeps,
}
use ethercat_device_simulato.Description.Effects.{SaveKeeps, write_sdo-Keeps}
use ethercat_device_simulato.Fault.{
  AxisFault, Prepared, response, prepare, exc, axis_model_output_invalid,
  axis_model_execution_failed,
}
use ethercat_device_simulato.Fault.Invariant.{
  IsGuard, prepare-IsGuard, accept-IsGuard, detect-IsGuard,
}
use ethercat_device_simulato.Fault.Exchange.{failed-IsGuard, prepare_resets}
use ethercat_device_simulato.Axis.{
  Device, Model, Hex, Request, describe, idle, unknown, read, write, cycle, Response, value,
  sdo_abort, fromhex, run_cycle, run_idle, on_guard, access_model, Entry, on_store, after_save,
  saver, read_entry, write_entry,
}
use ethercat_device_simulato.Axis.Dispatch.{
  Attempt, returned, completed, is_normal, disable_first, accept_output, withhold, with_prepared,
  attempt_cycle, idle_inputs, attempt_idle, conclude, reply, access, guarded_access, is_expected,
  unless_restart, read_guarded, dispatch,
}

abbrev pub Guarded : {A D : Type 0} → Model A D → Type 0
Guarded m = IsGuard m.guard

module _ {A D : Type 0} (device : Device A D) where
  -- The model runs behind the guard: these steps leave it as it is.
  module _ (g : AxisFault) where
    abbrev Same : Model A D → Type 0
    Same m = m.guard ≡ g

    fromhex-Same : (hex : Hex) → Keeps Same (fromhex hex)
    unfolding fromhex
    fromhex-Same none m h = h
    fromhex-Same (some bytes) m h = h

    disable_first-Same : (payload : List ℕ) → Keeps Same (disable_first device payload)
    unfolding disable_first
    disable_first-Same payload =
        bind-Keeps Same _ _ (λ m h. h)
          λ _.
            bind-Keeps Same _ _ (λ m h. h)
              λ rejected. when-Keeps Same rejected _ (bind-Keeps Same _ _ (λ m h. h) λ _ m h. h)

    run_cycle-Same : (mono : ℕ) (payload : List ℕ) → Keeps Same (run_cycle device mono payload)
    unfolding run_cycle
    run_cycle-Same mono payload = bind-Keeps Same _ _ (check-Keeps Same _ _) λ _.
        bind-Keeps Same _ _ (λ m h. h)
          λ dt. bind-Keeps Same _ _ (check-Keeps Same _ _) λ _.
            bind-Keeps Same _ _ (λ m h. h)
              λ _.
                bind-Keeps Same _ _ (λ m h. h)
                  λ _.
                    bind-Keeps Same _ _ (λ m h. h)
                      λ _.
                        bind-Keeps Same _ _ (λ m h. h)
                          λ result. bind-Keeps Same _ _ (λ m h. h) λ _ m h. h

    run_idle-Same : Keeps Same (run_idle device)
    unfolding run_idle
    run_idle-Same = bind-Keeps Same _ _ (λ m h. h) λ _ m h. h

    after_save-Same :
        (wall axis : ℕ) (x : Result (Unit {0}) × Model A D)
        → Same x.1
        → Same (after_save wall axis x).1
    unfolding after_save
    after_save-Same wall axis (ok _, m) h = h
    after_save-Same wall axis (err e, m) h = h

    saver-Same :
        (wall : ℕ) (store : Option (Exec (A × D) (Unit {0})))
        → SaveKeeps device.ops
            (λ m. m.adapter)
            (λ a m. record m { adapter = a })
            Same
            (λ a m h. h)
            (saver device wall store)
    unfolding saver
    saver-Same wall none = tt
    saver-Same wall (some save) = λ m h. after_save-Same wall device.slave_index (on_store save m) h

    read_entry-Same :
        (index sub : ℕ) (e : Option Entry) → Keeps Same (read_entry device index sub e)
    unfolding read_entry
    read_entry-Same index sub none = λ m h. h
    read_entry-Same index sub (some e) =
        if-Keeps Same _ _ _ (λ m h. h) (bind-Keeps Same _ _ (λ m h. h) λ _ m h. h)

    write_entry-Same :
        (wall index sub : ℕ) (hex : Hex) (e : Option Entry)
        → Keeps Same (write_entry device wall index sub hex e)
    unfolding write_entry
    write_entry-Same wall index sub hex none = λ m h. h
    write_entry-Same wall index sub hex (some e) = bind-Keeps Same _ _ (fromhex-Same hex) λ payload.
        bind-Keeps Same _ _ (check-Keeps Same _ _) λ _.
          bind-Keeps Same _ _
            (write_sdo-Keeps device.ops (λ m. m.adapter) (λ a m. record m { adapter = a }) Same
              (λ a m h. h) index sub payload e.access _ (saver-Same wall device.store))
            λ _ m h. h

    access_model-Same :
        (wall : ℕ) (request : Request) → Keeps Same (access_model device wall request)
    unfolding access_model
    access_model-Same wall describe = λ m h. h
    access_model-Same wall (read index sub) = read_entry-Same index sub (device.entries index sub)
    access_model-Same wall (write index sub hex) =
        write_entry-Same wall index sub hex (device.entries index sub)
    access_model-Same wall _ = λ m h. h

  abbrev AllGuarded : Model A D → Type 0
  AllGuarded = Guarded

  accept_output-IsGuard :
      (wall : ℕ) (bytes : List ℕ) (resetting : Bool) (g : AxisFault)
      → IsGuard g
      → (resetting ≡ true → g.restart_required ≡ false)
      → Ensures (Same g) (accept_output device wall bytes resetting) AllGuarded
  unfolding accept_output
  accept_output-IsGuard wall bytes resetting g ok_g only =
      catching-Ensures {P = Same g} {Q = AllGuarded} _ _
        (λ m same.
          accept-IsGuard wall bytes resetting m.guard (subst IsGuard (sym same) ok_g)
            (λ e. ap (λ (x : AxisFault). x.restart_required) same ∙ only e))
        (λ e m h. detect-IsGuard wall axis_model_output_invalid (exc e) true m.guard)

  with_prepared-IsGuard :
      (wall mono : ℕ) (r : Prepared) (g : AxisFault)
      → IsGuard g
      → ((p : List ℕ) → r ≡ (some p, true) → g.restart_required ≡ false)
      → Ensures (Same g) (with_prepared device wall mono r) AllGuarded
  unfolding with_prepared withhold
  with_prepared-IsGuard wall mono (none, resetting) g ok_g only =
      bind-Ensures {P = Same g} {Q = AllGuarded} _ _ (λ m h. h)
        (λ _ m same. subst IsGuard (sym same) ok_g) (λ m same. subst IsGuard (sym same) ok_g)
  with_prepared-IsGuard wall mono (some payload, resetting) g ok_g only =
      bind-Ensures {P = Same g} {Q = AllGuarded} _ _
        (when-Keeps (Same g) resetting _ (disable_first-Same g payload))
        (λ _.
          bind-Ensures {P = Same g} {Q = AllGuarded} _ _ (run_cycle-Same g mono payload)
            (λ bytes.
              bind-Ensures {P = Same g} {Q = AllGuarded} _ _ (λ m h. h)
                (λ count.
                  bind_after-Ensures {P = Same g} {Q = AllGuarded} _ _
                    (accept_output-IsGuard wall bytes resetting g ok_g (λ e. only payload (rw e)))
                    (λ _ m h. h))
                weaken)
            weaken)
        weaken
    where
      weaken : (m : Model A D) → Same g m → AllGuarded m
      weaken m same = subst IsGuard (sym same) ok_g

  after_prepare-IsGuard :
      (wall mono : ℕ) (r : Result Prepared) (m : Model A D)
      → IsGuard m.guard
      → ((p : List ℕ) → r ≡ ok (some p, true) → m.guard.restart_required ≡ false)
      → IsGuard (go_on r (with_prepared device wall mono) m).1.guard
  after_prepare-IsGuard wall mono (ok p) m h only =
      with_prepared-IsGuard wall mono p m.guard h (λ q e. only q (ap ok e)) m refl
  after_prepare-IsGuard wall mono (err e) m h only = h

  prepare_step-IsGuard :
      (wall mono : ℕ) (payload : List ℕ)
      → Keeps AllGuarded (on_guard (prepare wall payload) >>= with_prepared device wall mono)
  unfolding ◌>>=◌
  prepare_step-IsGuard wall mono payload m h =
      after_prepare-IsGuard wall mono (prepare wall payload m.guard).0
        (record m { guard = (prepare wall payload m.guard).1 })
        (prepare-IsGuard wall payload m.guard h) (λ p. prepare_resets wall payload p m.guard h)

  attempt_cycle-IsGuard :
      (wall mono : ℕ) (hex : Hex) → Keeps AllGuarded (attempt_cycle device wall mono hex)
  unfolding attempt_cycle
  attempt_cycle-IsGuard wall mono hex = bind-Keeps AllGuarded _ _ (fromhex-IsGuard hex) λ payload.
      bind-Keeps AllGuarded _ _ (check-Keeps AllGuarded _ _)
        λ _. prepare_step-IsGuard wall mono payload
    where
      fromhex-IsGuard : (hex : Hex) → Keeps AllGuarded (fromhex hex)
      fromhex-IsGuard hex m h = subst IsGuard (sym (fromhex-Same m.guard hex m refl)) h

  withhold-IsGuard : Keeps AllGuarded (withhold device)
  unfolding withhold
  withhold-IsGuard = bind-Keeps AllGuarded _ _ (λ m h. h) λ _ m h. h

  idle_inputs-IsGuard :
      (wall : ℕ) (g : AxisFault) → IsGuard g → Ensures (Same g) (idle_inputs device wall) AllGuarded
  unfolding idle_inputs
  idle_inputs-IsGuard wall g h =
      bind-Ensures {P = Same g} {Q = AllGuarded} _ _ (run_idle-Same g)
        (λ bytes.
          bind_after-Ensures {P = Same g} {Q = AllGuarded} _ _
            (accept_output-IsGuard wall bytes false g h (λ e. cc)) (λ _ m h. h))
        (λ m same. subst IsGuard (sym same) h)

  attempt_idle-IsGuard : (wall : ℕ) → Keeps AllGuarded (attempt_idle device wall)
  unfolding attempt_idle
  attempt_idle-IsGuard wall =
      bind-Keeps AllGuarded _ _ (λ m h. h)
        λ normal_phase.
          if-Keeps AllGuarded normal_phase (idle_inputs device wall) (withhold device)
            (λ m h. idle_inputs-IsGuard wall m.guard h m refl) withhold-IsGuard

  reply-same : (r : Option Response) (m : Model A D) → (reply device r m).1 ≡ m
  unfolding reply
  reply-same none m = ground arith
  reply-same (some r) m = ground arith

  conclude-IsGuard :
      (wall : ℕ) (r : Result Attempt) (m : Model A D)
      → IsGuard m.guard
      → IsGuard (conclude device wall (r, m)).1.guard
  unfolding conclude
  conclude-IsGuard wall (ok (returned r)) m h = h
  conclude-IsGuard wall (ok (completed r)) m h = subst AllGuarded (sym (reply-same (some r) m)) h
  conclude-IsGuard wall (err e) m h =
      subst AllGuarded (sym (reply-same none _)) (failed-IsGuard wall e m.guard)

  access-IsGuard : (wall : ℕ) (request : Request) → Keeps AllGuarded (access device wall request)
  unfolding access
  access-IsGuard wall request =
      catching-Keeps AllGuarded _ _
        (λ m h. subst IsGuard (sym (access_model-Same m.guard wall request m refl)) h)
        (guarded-IsGuard wall request)
    where
      guarded-IsGuard :
          (wall : ℕ) (request : Request) (e : Error)
          → Keeps AllGuarded (guarded_access device wall request e)
      guarded-IsGuard wall request e m h =
          unfold guarded_access in
          if-holds (λ (x : Result Response × Model A D). AllGuarded x.1) (is_expected request e)
            (err e, m) _ h (detect-IsGuard wall axis_model_execution_failed (exc e) true m.guard)

  unless_restart-IsGuard :
      (go : Exec (Model A D) Response)
      → Keeps AllGuarded go
      → Keeps AllGuarded (unless_restart device go)
  unfolding unless_restart
  unless_restart-IsGuard go hgo m h =
      if-holds (λ (x : Result Response × Model A D). AllGuarded x.1) m.guard.restart_required
        (ok (sdo_abort 0x08000022), m) (go m) h (hgo m h)

  read_guarded-IsGuard :
      (wall index sub : ℕ) → Keeps AllGuarded (read_guarded device wall index sub)
  unfolding read_guarded
  read_guarded-IsGuard wall index sub m h =
      let go = access device wall (read index sub) in
      if-holds (λ (x : Result Response × Model A D). AllGuarded x.1)
        (index == 0x6041 && sub == 0 && not (is_normal m.guard.phase))
        (ok (value (take 2 (response m.guard).content)), m) (unless_restart device go m) h
        (unless_restart-IsGuard go (access-IsGuard wall (read index sub)) m h)

  -- Whatever the adapter and the store do, and whatever the request, a well-formed guard stays well
  -- formed.
  pub dispatch-IsGuard :
      (wall mono : ℕ) (request : Request) (m : Model A D)
      → IsGuard m.guard
      → IsGuard (dispatch device wall mono request m).1.guard
  unfolding dispatch
  dispatch-IsGuard wall mono (cycle hex) m h =
      conclude-IsGuard wall _ _ (attempt_cycle-IsGuard wall mono hex m h)
  dispatch-IsGuard wall mono idle m h = conclude-IsGuard wall _ _ (attempt_idle-IsGuard wall m h)
  dispatch-IsGuard wall mono (read index sub) m h = read_guarded-IsGuard wall index sub m h
  dispatch-IsGuard wall mono (write index sub hex) m h =
      unless_restart-IsGuard (access device wall (write index sub hex))
        (access-IsGuard wall (write index sub hex)) m h
  dispatch-IsGuard wall mono describe m h = access-IsGuard wall describe m h
  dispatch-IsGuard wall mono unknown m h = access-IsGuard wall unknown m h
