-- ===== src/Od.antt =====
-- The Object Dictionary: src/functional_model/cia402_drive/profile/object_dictionary.py. The view
-- `_RuntimeValueView` only renames `read`, `write` and `has_entry`.
mod Keyed
pub mod Laws
pub mod Tests
use Prim.Native.String.{String}
use package.text.Mathlib.Text.{◌==◌ as str_eq}
pub use Keyed.{Key, whole, part, Dict}
unfoldable pub use Keyed.{key_eq, lookup, put}
pub use Keyed.{key_eq_iff, lookup-put}
use ethercat_device_simulato.Prelude.{
  ℕ, zero, suc, ◌+◌, ◌/◌, ℤ, pos, Bool, true, false, not, ◌&&◌, ◌||◌, Option, none, some, List, [],
  ◌∷◌, if◌then◌else◌, ◌==◌, replicate,
}
use ethercat_device_simulato.Exec.{Error, key_error, Result, ok, err, then_do, Exec}
use ethercat_device_simulato.DataType.{DataType, byte_array, string_like, blank}
use ethercat_device_simulato.Value.{Value, int, str, bytes}

-- `VirtualOdDefinition`
pub record Definition (F : Type 0) : Type 0 where
  pub index : ℕ
  pub subindex : ℕ
  pub name : String
  pub data_type : DataType
  pub bit_size : ℕ
  pub access : String
  pub default : Value F
  pub role : Option String
  pub rxpdo : Bool
  pub txpdo : Bool

-- `VirtualOdEntry`
pub record OdEntry (F : Type 0) : Type 0 where
  pub definition : Definition F
  pub value : Value F

-- `VirtualOdModel`
pub record OdModel (F : Type 0) : Type 0 where
  pub entries : Dict (OdEntry F)
  pub last_write_key : Option Key
  pub write_generation : ℕ

-- The keyword arguments of `define` and `overlay`; `none` is an argument left out (or `None`).
pub record Changes (F : Type 0) : Type 0 where
  pub name : String
  pub data_type : DataType
  pub bit_size : ℕ
  pub access : Option String
  pub default : Option (Value F)
  pub role : Option String
  pub rxpdo : Option Bool
  pub txpdo : Option Bool

-- `_storage_key`
unfoldable pub storage_key : ℕ → Option ℕ → Key
storage_key index none = whole index
storage_key index (some zero) = whole index
storage_key index (some (suc sub)) = part index (suc sub)

-- `subindex or 0`, `access or ""` and their like
abbrev pub or_else {ℓ} : {A : Type ℓ} → A → Option A → A
or_else d none = d
or_else d (some a) = a

-- A text that `overlay` takes over: neither `None` nor `""`.
abbrev supplied_text : String → Option String → String
supplied_text old none = old
supplied_text old (some new) = if str_eq new "" then old else new

supplied_type : DataType → DataType → DataType
supplied_type old blank = old
supplied_type old new = new

supplied_role : Option String → Option String → Option String
supplied_role old none = old
supplied_role old (some new) = if str_eq new "" then old else some new

abbrev is_empty_text : {F : Type 0} → Value F → Bool
is_empty_text (str []) = true
is_empty_text _ = false

-- `default_value(data_type, bit_size)`
unfoldable pub default_value : {F : Type 0} → DataType → ℕ → Value F
default_value byte_array bit_size = bytes (replicate ((bit_size + 7) / 8) 0)
default_value string_like bit_size = str []
default_value _ bit_size = int (pos 0)

abbrev pub or_key_error {ℓ} : {A : Type ℓ} → Option A → Result A
or_key_error none = err key_error
or_key_error (some a) = ok a

abbrev pub map_result : {A B : Type 0} → (A → B) → Result A → Result B
map_result f r = then_do r (λ a. ok (f a))

module _ {F : Type 0} where
  -- `VirtualOdModel.__init__`
  abbrev pub empty : OdModel F
  empty = record { entries = []; last_write_key = none; write_generation = 0 }

  defined : ℕ → ℕ → Changes F → Definition F
  defined index sub c = record {
    index = index;
    subindex = sub;
    name = c.name;
    data_type = c.data_type;
    bit_size = c.bit_size;
    access = or_else "" c.access;
    default = or_else (int (pos 0)) c.default;
    role = c.role;
    rxpdo = or_else false c.rxpdo;
    txpdo = or_else false c.txpdo;
  }

  -- `define(index, subindex, ...)`
  unfoldable pub define : ℕ → ℕ → Changes F → OdModel F → OdModel F
  unfolding defined
  define index sub c od =
      let entry : OdEntry F = record {
        definition = defined index sub c;
        value = or_else (int (pos 0)) c.default;
      } in
      record od { entries = put (storage_key index (some sub)) entry od.entries }

  supplied_default : Value F → Option (Value F) → Value F
  supplied_default old none = old
  supplied_default old (some v) = if is_empty_text v then old else v

  -- `replace(current.definition, **supplied)`
  replaced : Definition F → Changes F → Definition F
  unfolding supplied_default supplied_type supplied_role
  replaced d c = record d {
    name = supplied_text d.name (some c.name);
    data_type = supplied_type d.data_type c.data_type;
    bit_size = c.bit_size;
    access = supplied_text d.access c.access;
    default = supplied_default d.default c.default;
    role = supplied_role d.role c.role;
    rxpdo = or_else d.rxpdo c.rxpdo;
    txpdo = or_else d.txpdo c.txpdo;
  }

  overlay_on : ℕ → ℕ → Changes F → OdModel F → Option (OdEntry F) → OdModel F
  unfolding replaced
  overlay_on index sub c od none = define index sub c od
  overlay_on index sub c od (some current) =
      let entry : OdEntry F = record {
        definition = replaced current.definition c;
        value = or_else current.value c.default;
      } in
      record od { entries = put (storage_key index (some sub)) entry od.entries }

  -- `overlay(index, subindex, **changes)`
  unfoldable pub overlay : ℕ → ℕ → Changes F → OdModel F → OdModel F
  unfolding overlay_on
  overlay index sub c od =
      overlay_on index sub c od (lookup (storage_key index (some sub)) od.entries)

  -- `definition(index, subindex)`
  unfoldable pub definition : ℕ → Option ℕ → OdModel F → Result (Definition F)
  definition index sub od =
      map_result (λ (e : OdEntry F). e.definition)
        (or_key_error (lookup (storage_key index sub) od.entries))

  -- `read(index, subindex)`
  unfoldable pub read : ℕ → Option ℕ → OdModel F → Result (Value F)
  read index sub od =
      map_result (λ (e : OdEntry F). e.value)
        (or_key_error (lookup (storage_key index sub) od.entries))

  set_value : Key → Value F → Option (OdEntry F) → OdModel F → Result (Unit {0}) × OdModel F
  set_value key v none od = (err key_error, od)
  set_value key v (some e) od =
      (ok tt, record od { entries = put key (record e { value = v }) od.entries })

  -- `write_internal(index, value, subindex)`
  unfoldable pub write_internal : ℕ → Value F → Option ℕ → Exec (OdModel F) (Unit {0})
  unfolding set_value
  write_internal index v sub od =
      let key = storage_key index sub in set_value key v (lookup key od.entries) od

  written : Key → Result (Unit {0}) × OdModel F → Result (Unit {0}) × OdModel F
  written key (ok _, od) =
      (ok tt, record od { last_write_key = some key; write_generation = od.write_generation + 1 })
  written key (err e, od) = (err e, od)

  -- `write(index, value, subindex)`
  unfoldable pub write : ℕ → Value F → Option ℕ → Exec (OdModel F) (Unit {0})
  unfolding set_value written
  write index v sub od =
      let key = storage_key index sub in written key (set_value key v (lookup key od.entries) od)

  -- `has_entry(index, subindex)`
  unfoldable pub has_entry : ℕ → Option ℕ → OdModel F → Bool
  has_entry index sub od = elim (lookup (storage_key index sub) od.entries) [
    | none ↦ false
    | some e ↦ true
  ]
