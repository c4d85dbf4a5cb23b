-- ===== src/Storage/Snapshot/Shared.antt =====
-- What a save of src/functional_model/storage/parameter_store.py does to the snapshot of another parameter
-- set in the same directory.
use ethercat_device_simulato.Prelude.{
  ℕ, ◌≡◌, refl, Bool, true, false, Option, none, some, List, ltb, length,
}
use ethercat_device_simulato.Exec.{Result, Keeps, if-holds, bind-Keeps}
use ethercat_device_simulato.Text.{Text, text_eq}
use ethercat_device_simulato.Codec.{Floats}
use ethercat_device_simulato.Od.{OdModel}
use ethercat_device_simulato.Storage.Disk.{snapshot, temporary, file_eq, File, Disk, save_ops}
use ethercat_device_simulato.Storage.Disk.Apart.{Holds, save_until-Kept, save-Kept}
use ethercat_device_simulato.Storage.Snapshot.{Json, Device, write_out, save}

module _ {F : Type 0} (floats : Floats F) (json : Json F) (other : Text) (e : Option File) where
  write_out-Keeps :
      (failure : Option ℕ) (key : ℕ) (set : Text) (pieces : List (List ℕ))
      → text_eq set other ≡ false
      → Keeps (Holds (snapshot other) e) (write_out floats json failure key set pieces)
  unfolding write_out file_eq
  write_out-Keeps none key set pieces differs d h =
      save-Kept key set (snapshot other) e refl differs pieces d h
  write_out-Keeps (some n) key set pieces differs d h =
      if-holds (λ (r : Result (Unit {0}) × Disk). Holds (snapshot other) e r.1)
        (ltb n (length (save_ops true (temporary key) (snapshot set) pieces))) _ _
        (save_until-Kept key set (snapshot other) e refl differs true true n pieces d h)
        (save-Kept key set (snapshot other) e refl differs pieces d h)

  -- A save, returned or raised, keeps the snapshot of another parameter set.
  pub save-Keeps :
      (locked : Bool) (failure : Option ℕ) (key : ℕ) (device : Device F) (od : OdModel F)
      → text_eq device.parameter_set other ≡ false
      → Keeps (Holds (snapshot other) e) (save floats json locked failure key device od)
  unfolding save
  save-Keeps locked failure key device od differs =
      bind-Keeps (Holds (snapshot other) e) _ _ (λ d h. h)
        (λ pieces. write_out-Keeps failure key device.parameter_set pieces differs)
