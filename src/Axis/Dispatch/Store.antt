-- ===== src/Axis/Dispatch/Store.antt =====
-- What the requests of src/functional_model/runtime/axis.py do to the store.
use ethercat_device_simulato.Prelude.{
  ℕ, ◌≡◌, refl, arith, Bool, false, Option, none, some, List, ◌==◌, not, ◌&&◌, take,
}
use ethercat_device_simulato.Exec.{
  Error, Result, ok, err, Exec, Keeps, bind-Keeps, check-Keeps, when-Keeps, if-Keeps, if-holds,
  catching-Keeps,
}
use ethercat_device_simulato.Description.Effects.{SaveKeeps, write_sdo-Keeps}
use ethercat_device_simulato.Fault.{Prepared, response}
use ethercat_device_simulato.Axis.{
  Device, Model, Hex, Request, describe, idle, unknown, read, write, cycle, Response, value,
  sdo_abort, fromhex, run_cycle, run_idle, access_model, Entry, on_store, after_save, saver,
  read_entry, write_entry,
}
use ethercat_device_simulato.Axis.Dispatch.{
  Attempt, returned, completed, is_normal, disable_first, accept_output, withhold, with_prepared,
  attempt_cycle, idle_inputs, attempt_idle, conclude, reply, access, guarded_access, unless_restart,
  read_guarded, dispatch,
}

-- A save of the parameters that keeps `P` of the disk, where the axis has a store.
abbrev pub StoreKeeps : {A D : Type 0} → (D → Type 0) → Option (Exec (A × D) (Unit {0})) → Type 0
StoreKeeps P none = Unit
StoreKeeps P (some save) = Keeps (λ t. P t.1) save

module _ {A D : Type 0} (device : Device A D) (P : D → Type 0)
    (keeps : StoreKeeps P device.store) where
  abbrev Same : Model A D → Type 0
  Same m = P m.disk

  fromhex-Same : (hex : Hex) → Keeps Same (fromhex hex)
  unfolding fromhex
  fromhex-Same none m h = h
  fromhex-Same (some bytes) m h = h

  disable_first-Same : (payload : List ℕ) → Keeps Same (disable_first device payload)
  unfolding disable_first
  disable_first-Same payload =
      bind-Keeps Same _ _ (λ m h. h)
        λ _.
          bind-Keeps Same _ _ (λ m h. h)
            λ rejected. when-Keeps Same rejected _ (bind-Keeps Same _ _ (λ m h. h) λ _ m h. h)

  run_cycle-Same : (mono : ℕ) (payload : List ℕ) → Keeps Same (run_cycle device mono payload)
  unfolding run_cycle
  run_cycle-Same mono payload = bind-Keeps Same _ _ (check-Keeps Same _ _) λ _.
      bind-Keeps Same _ _ (λ m h. h)
        λ dt. bind-Keeps Same _ _ (check-Keeps Same _ _) λ _.
          bind-Keeps Same _ _ (λ m h. h)
            λ _.
              bind-Keeps Same _ _ (λ m h. h)
                λ _.
                  bind-Keeps Same _ _ (λ m h. h)
                    λ _.
                      bind-Keeps Same _ _ (λ m h. h) λ _. bind-Keeps Same _ _ (λ m h. h) λ _ m h. h

  accept_output-Same :
      (wall : ℕ) (bytes : List ℕ) (resetting : Bool)
      → Keeps Same (accept_output device wall bytes resetting)
  unfolding accept_output
  accept_output-Same wall bytes resetting = catching-Keeps Same _ _ (λ m h. h) (λ e m h. h)

  after_save-Same :
      (wall axis : ℕ) (x : Result (Unit {0}) × Model A D)
      → Same x.1
      → Same (after_save wall axis x).1
  unfolding after_save
  after_save-Same wall axis (ok _, m) h = h
  after_save-Same wall axis (err e, m) h = h

  saver-Same :
      (wall : ℕ) (store : Option (Exec (A × D) (Unit {0})))
      → StoreKeeps P store
      → SaveKeeps device.ops
          (λ m. m.adapter)
          (λ a m. record m { adapter = a })
          Same
          (λ a m h. h)
          (saver device wall store)
  unfolding saver
  saver-Same wall none k = tt
  saver-Same wall (some save) k =
      λ m h. after_save-Same wall device.slave_index (on_store save m) (k (m.adapter, m.disk) h)

  read_entry-Same : (index sub : ℕ) (e : Option Entry) → Keeps Same (read_entry device index sub e)
  unfolding read_entry
  read_entry-Same index sub none = λ m h. h
  read_entry-Same index sub (some e) =
      if-Keeps Same _ _ _ (λ m h. h) (bind-Keeps Same _ _ (λ m h. h) λ _ m h. h)

  write_entry-Same :
      (wall index sub : ℕ) (hex : Hex) (e : Option Entry)
      → Keeps Same (write_entry device wall index sub hex e)
  unfolding write_entry
  write_entry-Same wall index sub hex none = λ m h. h
  write_entry-Same wall index sub hex (some e) = bind-Keeps Same _ _ (fromhex-Same hex) λ payload.
      bind-Keeps Same _ _ (check-Keeps Same _ _) λ _.
        bind-Keeps Same _ _
          (write_sdo-Keeps device.ops (λ m. m.adapter) (λ a m. record m { adapter = a }) Same
            (λ a m h. h) index sub payload e.access _ (saver-Same wall device.store keeps))
          λ _ m h. h

  access_model-Same : (wall : ℕ) (request : Request) → Keeps Same (access_model device wall request)
  unfolding access_model
  access_model-Same wall describe = λ m h. h
  access_model-Same wall (read index sub) = read_entry-Same index sub (device.entries index sub)
  access_model-Same wall (write index sub hex) =
      write_entry-Same wall index sub hex (device.entries index sub)
  access_model-Same wall _ = λ m h. h

  withhold-Same : Keeps Same (withhold device)
  unfolding withhold
  withhold-Same = bind-Keeps Same _ _ (λ m h. h) λ _ m h. h

  with_prepared-Same :
      (wall mono : ℕ) (r : Prepared) → Keeps Same (with_prepared device wall mono r)
  unfolding with_prepared
  with_prepared-Same wall mono (none, resetting) = withhold-Same
  with_prepared-Same wall mono (some p, resetting) =
      bind-Keeps Same _ _ (when-Keeps Same resetting _ (disable_first-Same p)) λ _.
        bind-Keeps Same _ _ (run_cycle-Same mono p) λ bytes.
          bind-Keeps Same _ _ (λ m h. h)
            λ count. bind-Keeps Same _ _ (accept_output-Same wall bytes resetting) λ _ m h. h

  attempt_cycle-Same : (wall mono : ℕ) (hex : Hex) → Keeps Same (attempt_cycle device wall mono hex)
  unfolding attempt_cycle
  attempt_cycle-Same wall mono hex = bind-Keeps Same _ _ (fromhex-Same hex) λ payload.
      bind-Keeps Same _ _ (check-Keeps Same _ _)
        λ _. bind-Keeps Same _ _ (λ m h. h) (with_prepared-Same wall mono)

  attempt_idle-Same : (wall : ℕ) → Keeps Same (attempt_idle device wall)
  unfolding attempt_idle idle_inputs run_idle
  attempt_idle-Same wall =
      bind-Keeps Same _ _ (λ m h. h)
        λ normal_phase.
          if-Keeps Same normal_phase (idle_inputs device wall) (withhold device)
            (bind-Keeps Same _ _ (bind-Keeps Same _ _ (λ m h. h) λ _ m h. h)
              λ bytes. bind-Keeps Same _ _ (accept_output-Same wall bytes false) λ _ m h. h)
            withhold-Same

  conclude-Same :
      (wall : ℕ) (r : Result Attempt) (m : Model A D)
      → (conclude device wall (r, m)).1.disk ≡ m.disk
  unfolding conclude reply
  conclude-Same wall (ok (returned r)) m = refl
  conclude-Same wall (ok (completed r)) m = ground arith
  conclude-Same wall (err e) m = ground arith

  concluded :
      (wall : ℕ) (x : Result Attempt × Model A D) → Same x.1 → Same (conclude device wall x).1
  concluded wall (r, m) h = rw (conclude-Same wall r m) h

  guarded-Same :
      (wall : ℕ) (request : Request) (e : Error) → Keeps Same (guarded_access device wall request e)
  unfolding guarded_access
  guarded-Same wall request e m h = ground (arith, h)

  access-Same : (wall : ℕ) (request : Request) → Keeps Same (access device wall request)
  unfolding access
  access-Same wall request =
      catching-Keeps Same (access_model device wall request) (guarded_access device wall request)
        (access_model-Same wall request) (guarded-Same wall request)

  unless_restart-Same :
      (go : Exec (Model A D) Response) → Keeps Same go → Keeps Same (unless_restart device go)
  unfolding unless_restart
  unless_restart-Same go hgo m h =
      if-holds (λ (x : Result Response × Model A D). Same x.1) m.guard.restart_required
        (ok (sdo_abort 0x08000022), m) (go m) h (hgo m h)

  read_guarded-Same : (wall index sub : ℕ) → Keeps Same (read_guarded device wall index sub)
  unfolding read_guarded
  read_guarded-Same wall index sub m h =
      let go = access device wall (read index sub) in
      if-holds (λ (x : Result Response × Model A D). Same x.1)
        (index == 0x6041 && sub == 0 && not (is_normal m.guard.phase))
        (ok (value (take 2 (response m.guard).content)), m) (unless_restart device go m) h
        (unless_restart-Same go (access-Same wall (read index sub)) m h)

  -- What the axis' own save keeps of the disk, every request keeps.
  pub dispatch-disk :
      (wall mono : ℕ) (request : Request) → Keeps Same (dispatch device wall mono request)
  unfolding dispatch
  dispatch-disk wall mono (cycle hex) m h =
      concluded wall (attempt_cycle device wall mono hex m) (attempt_cycle-Same wall mono hex m h)
  dispatch-disk wall mono idle m h =
      concluded wall (attempt_idle device wall m) (attempt_idle-Same wall m h)
  dispatch-disk wall mono (read index sub) m h = read_guarded-Same wall index sub m h
  dispatch-disk wall mono (write index sub hex) m h =
      unless_restart-Same (access device wall (write index sub hex))
        (access-Same wall (write index sub hex)) m h
  dispatch-disk wall mono describe m h = access-Same wall describe m h
  dispatch-disk wall mono unknown m h = access-Same wall unknown m h
