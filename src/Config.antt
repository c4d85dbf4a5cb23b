-- ===== src/Config.antt =====
-- The device configuration: `validate_config` of src/functional_model/configuration.py. A JSON value of
-- another type than the code asks for is `none`; paths are resolved by a parameter.
pub mod Ascending
pub mod Order
pub mod Environment
pub mod Loaded
mod Tests
use ethercat_device_simulato.Prelude.{
  ℕ, zero, suc, ◌+◌, ℤ, pos, negsuc, Bool, true, false, not, ◌&&◌, ◌||◌, Option, none, some, List,
  [], ◌∷◌, map, if◌then◌else◌, ltb, leb, ◌==◌, eqb_ℤ, length,
}
use ethercat_device_simulato.Exec.{Error, value_error, Result, ok, err, then_do}
use ethercat_device_simulato.Text.{Text, codes, text_eq, strip, is_digit, is_upper, is_lower}

-- `device['model']`; the tests of its fields, without and with the artifact, are `plain` and `with_artifact`.
pub record RawModel : Type 0 where
  pub plain : Bool
  pub with_artifact : Bool
  pub kind : Option Text
  pub mode : Option Text
  pub artifact : Option Text

-- One of `data['devices']`; `exact` is the test of its fields.
pub record RawDevice : Type 0 where
  pub exact : Bool
  pub slave_index : Option ℤ
  pub id : Option Text
  pub profile : Option Text
  pub model : Option RawModel
  pub parameter_set : Option Text

pub record RawConfig : Type 0 where
  pub exact : Bool  -- of `data`, `data['ethercat']` and `data['storage']`
  pub schema_version : Option ℤ
  pub interface : Option Text
  pub directory : Option Text
  pub devices : Option (List RawDevice)

pub record DeviceModel : Type 0 where
  pub kind : Text
  pub mode : Text
  pub artifact : Option Text

pub record Device : Type 0 where
  pub slave_index : ℕ
  pub id : Text
  pub profile : Text
  pub model : DeviceModel
  pub parameter_set : Text

pub record Config : Type 0 where
  pub interface : Text
  pub directory : Text
  pub devices : List Device

unfoldable pub require : Bool → Result (Unit {0})
require true = ok tt
require false = err value_error

unfoldable pub required_value {ℓ} : {A : Type ℓ} → Option A → Result A
required_value none = err value_error
required_value (some a) = ok a

unfoldable pub every : (ℕ → Bool) → List ℕ → Bool
every p [] = true
every p (n ∷ ns) = p n && every p ns

unfoldable pub member : ℕ → List ℕ → Bool
member n [] = false
member n (m ∷ ms) = n == m || member n ms

unfoldable pub text_member : Text → List Text → Bool
unfolding text_eq
text_member s [] = false
text_member s (t ∷ ts) = text_eq s t || text_member s ts

unfoldable pub is_alphanumeric : ℕ → Bool
unfolding is_digit is_upper is_lower
is_alphanumeric c = is_digit c || is_upper c || is_lower c

-- `[A-Za-z0-9_-]`
unfoldable pub is_name_code : ℕ → Bool
unfolding is_alphanumeric
is_name_code c = is_alphanumeric c || c == 95 || c == 45

-- `[A-Za-z0-9][A-Za-z0-9_-]{0,63}`
unfoldable pub is_name : Text → Bool
unfolding is_alphanumeric is_name_code every
is_name [] = false
is_name (c ∷ s) = is_alphanumeric c && every is_name_code s && leb (length s) 63

-- `[A-Za-z0-9_.:-]{1,15}`
unfoldable pub is_interface : Text → Bool
unfolding is_name_code every
is_interface s =
    every (λ c. is_name_code c || c == 46 || c == 58) s && leb 1 (length s) && leb (length s) 15

unfoldable pub is_blank : Text → Bool
unfolding strip
is_blank s = length (strip s) == 0

unfoldable pub index_value : Option ℤ → Result ℕ
index_value none = err value_error
index_value (some (pos n)) = ok n
index_value (some (negsuc n)) = err value_error

-- `name(device[key], ...)` and the test for duplicates
unfoldable pub new_name : Option Text → List Text → Result Text
unfolding is_name require required_value text_member
new_name value used = then_do (required_value value) (λ s.
    then_do (require (is_name s)) (λ _. then_do (require (not (text_member s used))) (λ _. ok s)))

unfoldable pub is_copley : Option Text → Bool
unfolding text_eq
is_copley none = false
is_copley (some s) = text_eq s (codes "copley_drive_sim")

unfoldable pub is_mode : Text → Bool
unfolding text_eq
is_mode s = text_eq s (codes "linear") || text_eq s (codes "rotary")

unfoldable pub is_kind : Text → Bool
unfolding text_eq
is_kind s = text_eq s (codes "f_kr_cmmt") || text_eq s (codes "copley_drive_sim")

-- The index of a device, not yet used.
unfoldable pub new_index : RawDevice → List ℕ → Result ℕ
unfolding require index_value member
new_index raw indices = then_do (require raw.exact) (λ _.
    then_do (index_value raw.slave_index)
      (λ index. then_do (require (not (member index indices))) (λ _. ok index)))

module _ (resolve : Text → Text) where
  -- The artifact of a Copley model.
  unfoldable pub checked_artifact : Bool → Option Text → Result (Option Text)
  unfolding require required_value is_blank
  checked_artifact false artifact = ok none
  checked_artifact true artifact =
      then_do (required_value artifact)
        (λ s. then_do (require (not (is_blank s))) (λ _. ok (some (resolve s))))

  -- The part of the loop's body on `device['model']`.
  unfoldable pub checked_model : Option RawModel → Result DeviceModel
  unfolding require required_value is_copley is_mode is_kind checked_artifact
  checked_model raw = then_do (required_value raw) (λ m.
      then_do (require (if is_copley m.kind then m.with_artifact else m.plain)) (λ _.
        then_do (required_value m.kind) (λ kind. then_do (required_value m.mode) (λ mode.
          then_do (require (is_kind kind && is_mode mode)) (λ _.
            then_do (checked_artifact (is_copley m.kind) m.artifact)
              (λ artifact. ok (record { kind = kind; mode = mode; artifact = artifact })))))))

  -- The rest of the body, with the index that was tested.
  unfoldable pub checked_device : ℕ → RawDevice → List Text → List Text → Result Device
  unfolding new_name require required_value text_eq checked_model
  checked_device index raw ids sets = then_do (new_name raw.id ids) (λ id.
      then_do (new_name raw.parameter_set sets) (λ parameter_set.
        then_do (required_value raw.profile) (λ profile.
          then_do (require (text_eq profile (codes "cia402-drive"))) (λ _.
            then_do (checked_model raw.model) (λ model. ok (record {
              slave_index = index;
              id = id;
              profile = profile;
              model = model;
              parameter_set = parameter_set;
            }))))))

  -- The loop over the devices with `ids`, `sets` and `indices`.
  unfoldable pub checked_devices :
      List Text → List Text → List ℕ → List RawDevice → Result (List Device)
  unfolding new_index checked_device
  checked_devices ids sets indices [] = ok []
  checked_devices ids sets indices (raw ∷ raws) = then_do (new_index raw indices) (λ index.
      then_do (checked_device index raw ids sets) (λ d.
        then_do (checked_devices (d.id ∷ ids) (d.parameter_set ∷ sets) (index ∷ indices) raws)
          (λ rest. ok (d ∷ rest))))

unfoldable pub indices_of : List Device → List ℕ
indices_of [] = []
indices_of (d ∷ ds) = d.slave_index ∷ indices_of ds

-- `range(n)` is a subset of the indices.
unfoldable pub covers : ℕ → List ℕ → Bool
unfolding member
covers zero indices = true
covers (suc n) indices = member n indices && covers n indices

-- `indices == set(range(len(devices)))`
unfoldable pub is_contiguous : List Device → Bool
unfolding every covers indices_of
is_contiguous ds =
    every (λ i. ltb i (length ds)) (indices_of ds) && covers (length ds) (indices_of ds)

-- `sorted(devices, key=...)`
unfoldable pub insert_device : Device → List Device → List Device
insert_device d [] = d ∷ []
insert_device d (e ∷ es) =
    if leb d.slave_index e.slave_index then d ∷ e ∷ es else e ∷ insert_device d es

unfoldable pub sort_devices : List Device → List Device
unfolding insert_device
sort_devices [] = []
sort_devices (d ∷ ds) = insert_device d (sort_devices ds)

unfoldable pub is_one : Option ℤ → Bool
is_one none = false
is_one (some v) = eqb_ℤ v (pos 1)

-- `validate_config(data, base_directory)`
unfoldable pub validate_config : (Text → Text) → RawConfig → Result Config
unfolding require required_value is_one is_interface is_blank checked_devices is_contiguous
    sort_devices
validate_config resolve raw = then_do (require raw.exact) (λ _.
    then_do (require (is_one raw.schema_version)) (λ _.
      then_do (required_value raw.interface) (λ interface.
        then_do (require (is_interface interface)) (λ _.
          then_do (required_value raw.directory) (λ directory.
            then_do (require (not (is_blank directory))) (λ _.
              then_do (required_value raw.devices) (λ raws.
                then_do (require (leb 1 (length raws))) (λ _.
                  then_do (checked_devices resolve [] [] [] raws) (λ devices.
                    then_do (require (is_contiguous devices)) (λ _. ok (record {
                      interface = interface;
                      directory = resolve directory;
                      devices = sort_devices devices;
                    })))))))))))
