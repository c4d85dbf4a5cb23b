-- ===== src/Storage/Startup.antt =====
-- The start of the fleet with its snapshots: `ModelFleet.__init__` of src/functional_model/runtime/fleet.py
-- after the models are made.
pub mod Present
mod Tests
use ethercat_device_simulato.Prelude.{
  ℕ, suc, ◌+◌, Bool, true, false, Option, none, some, List, [], ◌∷◌, if◌then◌else◌,
}
use ethercat_device_simulato.Exec.{Error, Result, ok, err, then_do, Exec, pure, lift, ◌>>=◌, ◌>>◌}
use ethercat_device_simulato.Codec.{Floats}
use ethercat_device_simulato.Od.{OdModel}
use ethercat_device_simulato.Storage.Disk.{FileName, snapshot, Disk, content_at}
use ethercat_device_simulato.Storage.Snapshot.{Json, Device, load, save}

module _ {F : Type 0} (floats : Floats F) (json : Json F) where
  -- A model as the store sees it.
  abbrev pub Stored : Type 0
  Stored = Device F × OdModel F

  -- `store.load(model)` of the model's snapshot, which leaves the disk alone. The value is the model after it,
  -- and whether there was a snapshot.
  unfoldable pub load_model : Stored → Disk → Result (Stored × Bool)
  unfolding load
  load_model (device, od) disk =
      let (r, od') = load floats json device (content_at (snapshot device.parameter_set) disk) od in
      then_do r (λ found. ok ((device, od'), found))

  -- The first loop: the models after it and `missing`.
  unfoldable pub load_all : List Stored → Disk → Result (List Stored × List Stored)
  unfolding load_model
  load_all [] disk = ok ([], [])
  load_all (m ∷ ms) disk = then_do (load_model m disk) (λ loaded.
      then_do (load_all ms disk)
        (λ rest. ok (loaded.0 ∷ rest.0, (if loaded.1 then rest.1 else loaded.0 ∷ rest.1))))

  -- The second loop; `failures` are the first operations that the system refuses, and `key` numbers the
  -- temporary files.
  unfoldable pub save_all : Bool → (ℕ → Option ℕ) → ℕ → List Stored → Exec Disk (Unit {0})
  unfolding save
  save_all locked failures key [] = pure tt
  save_all locked failures key ((device, od) ∷ ms) = do
    save floats json locked (failures key) key device od
    save_all locked failures (key + 1) ms

  -- The value is the models.
  unfoldable pub start_fleet : Bool → (ℕ → Option ℕ) → ℕ → List Stored → Exec Disk (List Stored)
  unfolding load_all save_all
  start_fleet locked failures key models = do
    loaded ← (λ disk. (load_all models disk, disk))
    save_all locked failures key loaded.1
    pure loaded.0
