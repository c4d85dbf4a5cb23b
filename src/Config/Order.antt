-- ===== src/Config/Order.antt =====
-- The order of the devices that `validate_config` of src/functional_model/configuration.py returns.
use ethercat_device_simulato.Prelude.{
  ℕ, suc, ◌<◌, ◌≡◌, refl, ap, ◌∙◌, arith, Bool, true, false, not, some, List, [], ◌∷◌, leb, length,
  get_elem?,
}
use ethercat_device_simulato.Exec.{ok, ResultHas, then_do-has, ResultHas-ok}
use ethercat_device_simulato.Text.{Text}
use ethercat_device_simulato.Config.{
  RawDevice, RawConfig, Device, Config, require, member, new_index, checked_device, checked_devices,
  indices_of, is_contiguous, insert_device, sort_devices, validate_config, required_value, is_one,
  is_interface, is_blank,
}
use ethercat_device_simulato.Config.Ascending.{
  insert_index, sort_indices, fresh, every-sort_indices, length-sort_indices,
  ascending-sort_indices, get_elem?-ascending,
}

new_index-member :
    (raw : RawDevice) (indices : List ℕ) (i : ℕ)
    → new_index raw indices ≡ ok i
    → member i indices ≡ false
unfolding new_index
new_index-member raw indices i h = ground arith

module _ (resolve : Text → Text) where
  checked_device-slave_index :
      (i : ℕ) (raw : RawDevice) (ids sets : List Text) (d : Device)
      → checked_device resolve i raw ids sets ≡ ok d
      → d.slave_index ≡ i
  unfolding checked_device
  checked_device-slave_index i raw ids sets d h = ground arith

  Fresh : List ℕ → List Device → Type 0
  Fresh seen ds = fresh seen (indices_of ds) ≡ true

  Fresh-device :
      (i : ℕ) (seen : List ℕ) (d : Device) (rest : List Device)
      → member i seen ≡ false
      → d.slave_index ≡ i
      → Fresh (i ∷ seen) rest
      → Fresh seen (d ∷ rest)
  unfolding Fresh fresh indices_of
  Fresh-device i seen d rest m e h = rw (e, m) h

  checked_devices-Fresh :
      (ids sets : List Text) (seen : List ℕ) (raws : List RawDevice)
      → ResultHas (Fresh seen) (checked_devices resolve ids sets seen raws)
  unfolding checked_devices Fresh indices_of fresh ResultHas
  checked_devices-Fresh ids sets seen [] = refl
  checked_devices-Fresh ids sets seen (raw ∷ raws) =
      then_do-has (Fresh seen) (new_index raw seen) _ (λ i hi.
        then_do-has (Fresh seen) (checked_device resolve i raw ids sets) _ (λ d hd.
          then_do-has (Fresh seen)
            (checked_devices resolve (d.id ∷ ids) (d.parameter_set ∷ sets) (i ∷ seen) raws) _
            (λ rest hr.
              Fresh-device i seen d rest (new_index-member raw seen i hi)
                (checked_device-slave_index i raw ids sets d hd)
                (ResultHas-ok (Fresh (i ∷ seen)) _ rest hr
                  (checked_devices-Fresh (d.id ∷ ids) (d.parameter_set ∷ sets) (i ∷ seen) raws)))))

indices_of-insert_device :
    (d : Device) (ds : List Device)
    → indices_of (insert_device d ds) ≡ insert_index d.slave_index (indices_of ds)
unfolding indices_of insert_device insert_index
indices_of-insert_device d [] = refl
indices_of-insert_device d (e ∷ es) = ground (arith, indices_of-insert_device d es)

indices_of-sort_devices :
    (ds : List Device) → indices_of (sort_devices ds) ≡ sort_indices (indices_of ds)
unfolding indices_of sort_devices sort_indices
indices_of-sort_devices [] = refl
indices_of-sort_devices (d ∷ ds) =
    indices_of-insert_device d (sort_devices ds)
    ∙ ap (insert_index d.slave_index) (indices_of-sort_devices ds)

length-indices_of : (ds : List Device) → length (indices_of ds) ≡ length ds
unfolding indices_of
length-indices_of [] = refl
length-indices_of (d ∷ ds) = ap suc (length-indices_of ds)

-- Devices with fresh contiguous indices stand in the order of their indices.
sorted_indices :
    (ds : List Device) (i : ℕ)
    → fresh [] (indices_of ds) ≡ true
    → is_contiguous ds ≡ true
    → i < length ds
    → get_elem? (indices_of (sort_devices ds)) i ≡ some i
unfolding is_contiguous
sorted_indices ds i f c h = rw (indices_of-sort_devices ds) (
    get_elem?-ascending 0 (length ds) i (sort_indices (indices_of ds))
      (omega (arith, length-sort_indices (indices_of ds), length-indices_of ds))
      (ascending-sort_indices [] (indices_of ds) f)
      (every-sort_indices (length ds) (indices_of ds) ∙ ground arith)
      (omega (arith, length-sort_indices (indices_of ds), length-indices_of ds, h))
    ∙ ap some (omega arith))

-- The device at place `i` has the index `i`.
unfoldable pub Ordered : List Device → Type 0
Ordered ds = (i : ℕ) → i < length ds → get_elem? (indices_of ds) i ≡ some i

length-insert_device :
    (d : Device) (ds : List Device) → length (insert_device d ds) ≡ suc (length ds)
unfolding insert_device
length-insert_device d [] = refl
length-insert_device d (e ∷ es) = ground (arith, length-insert_device d es)

length-sort_devices : (ds : List Device) → length (sort_devices ds) ≡ length ds
unfolding sort_devices
length-sort_devices [] = refl
length-sort_devices (d ∷ ds) =
    length-insert_device d (sort_devices ds) ∙ ap suc (length-sort_devices ds)

require-true : (b : Bool) (u : Unit {0}) → require b ≡ ok u → b ≡ true
unfolding require
require-true b u h = ground arith

sorted-Ordered :
    (ds : List Device)
    → fresh [] (indices_of ds) ≡ true
    → is_contiguous ds ≡ true
    → Ordered (sort_devices ds)
unfolding Ordered
sorted-Ordered ds f c i h = sorted_indices ds i f c (omega (arith, length-sort_devices ds, h))

pub validated-Ordered :
    (resolve : Text → Text) (raw : RawConfig)
    → ResultHas (λ c. Ordered c.devices) (validate_config resolve raw)
unfolding validate_config ResultHas Fresh
validated-Ordered resolve raw =
    let P : Config → Type 0 = λ c. Ordered c.devices in
    then_do-has P (require raw.exact) _ (λ _ _.
      then_do-has P (require (is_one raw.schema_version)) _ (λ _ _.
        then_do-has P (required_value raw.interface) _ (λ interface _.
          then_do-has P (require (is_interface interface)) _ (λ _ _.
            then_do-has P (required_value raw.directory) _ (λ directory _.
              then_do-has P (require (not (is_blank directory))) _ (λ _ _.
                then_do-has P (required_value raw.devices) _ (λ raws _.
                  then_do-has P (require (leb 1 (length raws))) _ (λ _ _.
                    then_do-has P (checked_devices resolve [] [] [] raws) _ (λ ds hd.
                      then_do-has P (require (is_contiguous ds)) _ (λ u hc.
                        sorted-Ordered ds
                          (ResultHas-ok (Fresh resolve []) _ ds hd
                            (checked_devices-Fresh resolve [] [] [] raws))
                          (require-true (is_contiguous ds) u hc)))))))))))

-- In a configuration that is accepted, the device at place `i` has slave index `i`.
pub validate_config-order :
    (resolve : Text → Text) (raw : RawConfig) (c : Config) (i : ℕ)
    → validate_config resolve raw ≡ ok c
    → i < length c.devices
    → get_elem? (indices_of c.devices) i ≡ some i
unfolding Ordered
validate_config-order resolve raw c i e h =
    ResultHas-ok (λ c. Ordered c.devices) (validate_config resolve raw) c e
      (validated-Ordered resolve raw) i h
