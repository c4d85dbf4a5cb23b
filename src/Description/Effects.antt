-- ===== src/Description/Effects.antt =====
-- What the SDO write of device_descriptions/cmmt_as/description.py changes.
use ethercat_device_simulato.Prelude.{ℕ, Option, none, some, List}
use ethercat_device_simulato.Exec.{
  Error, Exec, Keeps, bind-Keeps, check-Keeps, if-Keeps, catching-Keeps,
}
use ethercat_device_simulato.Adapter.{DriveAdapter, Access}
use ethercat_device_simulato.Description.{
  read_previous, undo, save_selected, report_saved, run_save, write_sdo,
}

module _ {A S : Type 0} (ops : DriveAdapter A) (get : S → A) (put : A → S → S) (P : S → Type 0)
    (put-P : (a : A) (s : S) → P s → P (put a s)) where
  abbrev pub SaveKeeps : Option (Exec S (Unit {0})) → Type 0
  SaveKeeps none = Unit
  SaveKeeps (some save) = Keeps P save

  undo-Keeps :
      (index sub : ℕ) (previous : Option (List ℕ)) (e : Error)
      → Keeps P (undo ops get put index sub previous e)
  unfolding undo
  undo-Keeps index sub none e = λ s h. h
  undo-Keeps index sub (some bytes) e = bind-Keeps P _ _ (λ s h. put-P _ s h) λ _ s h. h

  report_saved-Keeps : Keeps P (report_saved ops get put)
  unfolding report_saved
  report_saved-Keeps =
      bind-Keeps P _ _ (λ s h. put-P _ s h)
        λ _. bind-Keeps P _ _ (λ s h. put-P _ s h) λ _ s h. put-P _ s h

  run_save-Keeps :
      (index sub : ℕ) (previous : Option (List ℕ)) (save : Option (Exec S (Unit {0})))
      → SaveKeeps save
      → Keeps P (run_save ops get put index sub previous save)
  unfolding run_save save_selected
  run_save-Keeps index sub previous none k = λ s h. h
  run_save-Keeps index sub previous (some save) k =
      bind-Keeps P _ _
        (catching-Keeps P _ _
          (bind-Keeps P _ _ (λ s h. put-P _ s h)
            λ selected. bind-Keeps P _ _ (check-Keeps P _ _) λ _. k)
          (undo-Keeps index sub previous))
        λ _. report_saved-Keeps

  pub write_sdo-Keeps :
      (index sub : ℕ) (payload : List ℕ) (access : Access) (save : Option (Exec S (Unit {0})))
      → SaveKeeps save
      → Keeps P (write_sdo ops get put index sub payload access save)
  unfolding write_sdo read_previous
  write_sdo-Keeps index sub payload access save k =
      bind-Keeps P _ _
        (if-Keeps P _ _ _ (λ s h. h) (bind-Keeps P _ _ (λ s h. put-P _ s h) λ _ s h. h))
        λ previous.
          bind-Keeps P _ _ (λ s h. put-P _ s h)
            λ _. if-Keeps P _ _ _ (run_save-Keeps index sub previous save k) (λ s h. h)
