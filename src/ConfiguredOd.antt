-- ===== src/ConfiguredOd.antt =====
-- The Object Dictionary that a device profile defines, and its two resets: `ConfiguredObjectDictionary`
-- of src/functional_model/cia402_drive/profile/configured_od.py, with `validate_catalog_support` of
-- profile.py beside it. The ESI catalogue is a parameter.
pub mod Reset
mod Tests
use Prim.Native.String.{String}
use ethercat_device_simulato.Prelude.{
  ℕ, Bool, true, false, not, ◌||◌, Option, none, some, List, [], ◌∷◌, ◌++◌, map, if◌then◌else◌,
  ◌==◌,
}
use ethercat_device_simulato.Exec.{
  Error, value_error, Result, ok, err, Exec, pure, lift, gets, modify, check, ◌>>=◌, ◌>>◌,
}
use ethercat_device_simulato.Value.{Value}
use ethercat_device_simulato.DataType.{DataType, bit_length}
use ethercat_device_simulato.Od.{
  Key, OdEntry, OdModel, Changes, empty, define, overlay, default_value, write_internal, has_entry,
  or_key_error,
}
use ethercat_device_simulato.Bridge.{PdoEntry}

-- An entry of the catalogue, with the key that it stands under
pub record CatalogEntry : Type 0 where
  pub index : ℕ
  pub subindex : ℕ
  pub name : String
  pub data_type : DataType
  pub bit_size : ℕ
  pub access : Option String

pub record Role : Type 0 where
  pub index : ℕ
  pub subindex : ℕ
  pub name : String
  pub data_type : DataType
  pub access : String
  pub role : String

-- One value of the non-PDO configuration
pub record Configured (F : Type 0) : Type 0 where
  pub index : ℕ
  pub subindex : ℕ
  pub value : Value F

-- A PDO entry with what the overlay takes from it besides
pub record PdoObject (F : Type 0) : Type 0 where
  pub entry : PdoEntry
  pub name : String
  pub default : Value F

-- What the constructor reads of the profile
pub record Profile (F : Type 0) : Type 0 where
  pub catalog : List CatalogEntry
  pub object_bits : ℕ → ℕ → Result ℕ  -- `esi_catalog.object_info(...).bit_size`
  pub roles : List Role
  pub configuration : Option (List (Configured F))
  pub rx : List (PdoObject F)
  pub tx : List (PdoObject F)

pub data Direction : Type 0 where
  rxpdo txpdo : Direction

abbrev flag : Direction → Direction → Option Bool
flag rxpdo rxpdo = some true
flag txpdo txpdo = some true
flag _ _ = none

-- `expected_data_type_bits(data_type)`
unfoldable pub expected_data_type_bits : DataType → Result ℕ
expected_data_type_bits t = or_key_error (bit_length t)

module _ {F : Type 0} where
  -- What `validate_catalog_support` reads of a role or a PDO entry
  abbrev supported : List Role → List (PdoObject F) → List (ℕ × ℕ × DataType)
  supported roles objects =
      map (λ (r : Role). (r.index, r.subindex, r.data_type)) roles
      ++ map (λ (o : PdoObject F). (o.entry.index, o.entry.subindex, o.entry.data_type)) objects

  validate : (ℕ → ℕ → Result ℕ) → List (ℕ × ℕ × DataType) → Exec (OdModel F) (Unit {0})
  validate object_bits [] = pure tt
  validate object_bits ((index, sub, t) ∷ rest) =
      if index == 0 then validate object_bits rest else do
        actual ← lift (object_bits index sub)
        expected ← lift (expected_data_type_bits t)
        check (actual == expected) value_error
        validate object_bits rest

  -- `_load_catalog(entries)`
  unfoldable pub load_catalog : List CatalogEntry → OdModel F → OdModel F
  load_catalog [] od = od
  load_catalog (e ∷ es) od = load_catalog es (
      define e.index e.subindex
        (record {
          name = e.name;
          data_type = e.data_type;
          bit_size = e.bit_size;
          access = e.access;
          default = some (default_value e.data_type e.bit_size);
          role = none;
          rxpdo = none;
          txpdo = none;
        })
        od)

  -- `_overlay_required_non_pdo_od(roles)`
  unfoldable pub overlay_roles : List Role → Exec (OdModel F) (Unit {0})
  overlay_roles [] = pure tt
  overlay_roles (r ∷ rs) = do
    bits ← lift (expected_data_type_bits r.data_type)
    modify (
        overlay r.index r.subindex (record {
          name = r.name;
          data_type = r.data_type;
          bit_size = bits;
          access = some r.access;
          default = none;
          role = some r.role;
          rxpdo = none;
          txpdo = none;
        }))
    overlay_roles rs

  apply_values : List (Configured F) → Exec (OdModel F) (Unit {0})
  apply_values [] = pure tt
  apply_values (c ∷ cs) = do
    present ← gets (has_entry c.index (some c.subindex))
    check present value_error
    write_internal c.index c.value (some c.subindex)
    apply_values cs

  -- `_apply_non_pdo_configuration(configuration)`
  unfoldable pub apply_configuration : Option (List (Configured F)) → Exec (OdModel F) (Unit {0})
  unfolding apply_values
  apply_configuration none = pure tt
  apply_configuration (some cs) = apply_values cs

  -- `_overlay_pdo(entries, direction)`
  unfoldable pub overlay_pdo : Direction → List (PdoObject F) → Exec (OdModel F) (Unit {0})
  overlay_pdo direction [] = pure tt
  overlay_pdo direction (o ∷ os) = if o.entry.index == 0 then overlay_pdo direction os else do
    bits ← lift (expected_data_type_bits o.entry.data_type)
    modify (
        overlay o.entry.index o.entry.subindex (record {
          name = o.name;
          data_type = o.entry.data_type;
          bit_size = bits;
          access = none;
          default = some o.default;
          role = o.entry.field;
          rxpdo = flag rxpdo direction;
          txpdo = flag txpdo direction;
        }))
    overlay_pdo direction os

  -- `ConfiguredObjectDictionary.__init__`
  unfoldable pub configured : Profile F → Result (Unit {0}) × OdModel F
  unfolding validate
  configured profile =
      (validate profile.object_bits (supported profile.roles (profile.rx ++ profile.tx))
          >> (modify (load_catalog profile.catalog)
              >> (overlay_roles profile.roles
                  >> (apply_configuration profile.configuration
                      >> (overlay_pdo rxpdo profile.rx >> overlay_pdo txpdo profile.tx)))))
        empty

  -- `reset_non_pdo_configuration()`
  unfoldable pub reset_non_pdo_configuration : Profile F → Exec (OdModel F) (Unit {0})
  reset_non_pdo_configuration profile = apply_configuration profile.configuration

  -- An entry after `reset_pdo_values`.
  unfoldable pub reset_entry : OdEntry F → OdEntry F
  reset_entry e =
      if e.definition.rxpdo || e.definition.txpdo
      then record e { value = e.definition.default }
      else e

  -- `reset_pdo_values()`
  unfoldable pub reset_pdo_values : OdModel F → OdModel F
  reset_pdo_values od = record od {
    entries = map (λ (x : Key × OdEntry F). (x.0, reset_entry x.1)) od.entries;
  }
