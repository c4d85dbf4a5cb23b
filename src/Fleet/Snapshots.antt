-- ===== src/Fleet/Snapshots.antt =====
-- The snapshots in the store that the axes of src/functional_model/runtime/fleet.py share.
use ethercat_device_simulato.Prelude.{
  ℕ, pos, ◌≡◌, ◌≢◌, refl, sym, subst, Bool, true, false, Option, some, get_elem?,
}
use ethercat_device_simulato.Exec.{Exec}
use ethercat_device_simulato.Text.{Text, text_eq}
use ethercat_device_simulato.Codec.{Floats}
use ethercat_device_simulato.Od.{OdModel}
use ethercat_device_simulato.Storage.Disk.{snapshot, Disk, File, file, below}
use ethercat_device_simulato.Storage.Disk.Apart.{Holds}
use ethercat_device_simulato.Storage.Snapshot.{Json, Device as StoredDevice, save}
use ethercat_device_simulato.Storage.Snapshot.Shared.{save-Keeps}
use ethercat_device_simulato.Axis.{Device, Model, Request}
use ethercat_device_simulato.Axis.Dispatch.Store.{StoreKeeps}
use ethercat_device_simulato.Fleet.{Fleet, dispatch_request}
use ethercat_device_simulato.Fleet.Isolation.{dispatch_request-others}

module _ {A F : Type 0} (floats : Floats F) (json : Json F) (od_of : A → OdModel F) where
  -- `self.store.save(self)` of an axis: the save of its Object Dictionary to the shared disk.
  unfoldable pub save_axis : Bool → Option ℕ → ℕ → StoredDevice F → Exec (A × Disk) (Unit {0})
  save_axis locked failure key stored (a, disk) =
      let (r, disk') = save floats json locked failure key stored (od_of a) disk in (r, (a, disk'))

  save_axis-StoreKeeps :
      (locked : Bool) (failure : Option ℕ) (key : ℕ) (stored : StoredDevice F) (other : Text)
      (e : Option File)
      → text_eq stored.parameter_set other ≡ false
      → StoreKeeps (Holds (snapshot other) e) (some (save_axis locked failure key stored))
  unfolding save_axis
  save_axis-StoreKeeps locked failure key stored other e differs (a, disk) h =
      save-Keeps floats json other e locked failure key stored (od_of a) differs disk h

  -- A request to slave `i`, whose save writes its parameter set to the store that all axes share, leaves
  -- every other axis of the process exactly as it was, and the snapshot of every other parameter set,
  -- whether the save returns, raises at any of its file operations or is not asked for. The directory
  -- names a file that exists for that snapshot, or none.
  pub dispatch_request-snapshots :
      (locked : Bool) (failure : Option ℕ) (key : ℕ) (stored : StoredDevice F) (other : Text)
      (wall mono i j : ℕ) (request : Request) (fleet : Fleet A Disk) (device : Device A Disk)
      (m : Model A (Unit {0}))
      → get_elem? fleet.models i ≡ some (device, m)
      → device.store ≡ some (save_axis locked failure key stored)
      → j ≢ i
      → text_eq stored.parameter_set other ≡ false
      → below fleet.disk.next (fleet.disk.visible (snapshot other)) ≡ true
      → (get_elem? (dispatch_request wall mono (some (pos i)) request fleet).1.models j
          ≡ get_elem? fleet.models j)
        × (file (snapshot other) (dispatch_request wall mono (some (pos i)) request fleet).1.disk
            ≡ file (snapshot other) fleet.disk)
  dispatch_request-snapshots locked failure key stored other wall mono i j request fleet device m at
        store differs apart exists =
      let e = file (snapshot other) fleet.disk in
      let P = Holds (snapshot other) e in
      let both =
        dispatch_request-others P wall mono i j request fleet device m at
          (subst (StoreKeeps P) (sym store)
            (save_axis-StoreKeeps locked failure key stored other e apart))
          differs (refl, exists) in
      (both.0, both.1.0)
