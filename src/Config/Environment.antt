-- ===== src/Config/Environment.antt =====
-- The configuration from environment variables: `load_environment` of src/functional_model/configuration.py,
-- with its regular expressions written out.
use ethercat_device_simulato.Prelude.{
  ℕ, ◌+◌, ◌-◌, ◌*◌, pos, Bool, true, false, not, ◌&&◌, ◌||◌, Option, none, some, List, [], ◌∷◌,
  ◌++◌, if◌then◌else◌, leb, ◌==◌, length,
}
use ethercat_device_simulato.Exec.{value_error, Result, ok, err, then_do}
use ethercat_device_simulato.Text.{Text, codes, text_eq, strip, is_digit}
use ethercat_device_simulato.Config.{
  RawDevice, RawConfig, Config, require, every, member, is_blank, is_copley, validate_config,
}

-- `os.environ`
abbrev pub Environment : Type 0
Environment = List (Text × Text)

unfoldable pub variable : Text → Environment → Option Text
unfolding text_eq
variable key [] = none
variable key ((k, v) ∷ rest) = if text_eq k key then some v else variable key rest

-- `env.get(key, default)`
unfoldable pub variable_or : Text → Text → Environment → Text
unfolding variable
variable_or default key env = elim (variable key env) [ none ↦ default | some v ↦ v ]

-- `required(key)`
unfoldable pub required : Text → Environment → Result Text
unfolding variable_or is_blank require
required key env =
    let value = variable_or [] key env in
    then_do (require (not (is_blank value))) (λ _. ok (strip value))

unfoldable pub split_cons : ℕ → List Text → List Text
split_cons c [] = (c ∷ []) ∷ []
split_cons c (part ∷ parts) = (c ∷ part) ∷ parts

-- `s.split(c)`
unfoldable pub split_at : ℕ → Text → List Text
unfolding split_cons
split_at c [] = [] ∷ []
split_at c (d ∷ s) = let rest = split_at c s in if d == c then [] ∷ rest else split_cons d rest

-- `0|[1-9][0-9]*`
unfoldable pub is_decimal : Text → Bool
unfolding every is_digit
is_decimal [] = false
is_decimal (c ∷ []) = is_digit c
is_decimal (c ∷ d ∷ s) = is_digit c && not (c == 48) && every is_digit (d ∷ s)

-- `int(s)` of decimal digits
unfoldable pub decimal_from : ℕ → Text → ℕ
decimal_from n [] = n
decimal_from n (c ∷ s) = decimal_from (n * 10 + (c - 48)) s

-- The index of an entry.
unfoldable pub index_of_text : Text → Result ℕ
unfolding is_decimal decimal_from require strip
index_of_text s =
    let digits = strip s in then_do (require (is_decimal digits)) (λ _. ok (decimal_from 0 digits))

-- An entry `index:value`.
unfoldable pub pair_of : List Text → Result (ℕ × Text)
unfolding index_of_text require
pair_of (index ∷ value ∷ []) =
    then_do (index_of_text index)
      (λ i. then_do (require (leb 1 (length value))) (λ _. ok (i, strip value)))
pair_of parts = err value_error

abbrev pub Mapping : Type 0
Mapping = List (ℕ × Text)

unfoldable pub mapped : ℕ → Mapping → Option Text
mapped i [] = none
mapped i ((j, s) ∷ rest) = if j == i then some s else mapped i rest

unfoldable pub is_mapped : ℕ → Mapping → Bool
unfolding mapped
is_mapped i m = elim (mapped i m) [ none ↦ false | some s ↦ true ]

-- The loop over the entries of one mapping, in their order.
unfoldable pub mapping_of : Mapping → List Text → Result Mapping
unfolding pair_of split_at require is_mapped
mapping_of values [] = ok values
mapping_of values (entry ∷ entries) = then_do (pair_of (split_at 58 entry)) (λ p.
    then_do (require (not (is_mapped p.0 values))) (λ _. mapping_of (values ++ p ∷ []) entries))

-- One round of the loop over `keys`; 44 is the comma.
unfoldable pub mapping_at : Text → Environment → Result Mapping
unfolding required mapping_of split_at
mapping_at key env = then_do (required key env) (λ s. mapping_of [] (split_at 44 s))

-- `mappings`
pub record Mappings : Type 0 where
  pub ids : Mapping
  pub models : Mapping
  pub modes : Mapping
  pub parameter_sets : Mapping

abbrev axis_key : Text → Text
axis_key suffix = codes "DEVICE_SIMULATOR_AXIS_" ++ suffix

unfoldable pub read_mappings : Environment → Result Mappings
unfolding mapping_at
read_mappings env = then_do (mapping_at (axis_key (codes "IDS")) env) (λ ids.
    then_do (mapping_at (axis_key (codes "MODELS")) env) (λ models.
      then_do (mapping_at (axis_key (codes "MODES")) env) (λ modes.
        then_do (mapping_at (axis_key (codes "PARAMETER_SETS")) env) (λ sets.
          ok (record { ids = ids; models = models; modes = modes; parameter_sets = sets })))))

-- `index:axis:cia402-drive`
unfoldable pub bus_entry : List Text → Result (ℕ × Text)
unfolding index_of_text require strip text_eq
bus_entry (index ∷ kind ∷ profile ∷ []) = then_do (index_of_text index) (λ i.
    then_do
      (require
        (text_eq (strip kind) (codes "axis") && text_eq (strip profile) (codes "cia402-drive")))
      (λ _. ok (i, strip profile)))
bus_entry parts = err value_error

-- `mappings[...][index]` of an index that is there
unfoldable pub raw_device : Text → Mappings → ℕ → Text → RawDevice
unfolding mapped is_copley
raw_device artifact m index profile =
    let kind = mapped index m.models in
    record {
      exact = true;
      slave_index = some (pos index);
      id = mapped index m.ids;
      profile = some profile;
      model = some (record {
        plain = not (is_copley kind);
        with_artifact = is_copley kind;
        kind = kind;
        mode = mapped index m.modes;
        artifact = if is_copley kind then some artifact else none;
      });
      parameter_set = mapped index m.parameter_sets;
    }

unfoldable pub in_all : ℕ → Mappings → Bool
unfolding is_mapped
in_all i m =
    is_mapped i m.ids && is_mapped i m.models && is_mapped i m.modes && is_mapped i m.parameter_sets

-- The loop over the bus entries; the value is the indices and profiles.
unfoldable pub bus_of : List ℕ → Mappings → List Text → Result (List (ℕ × Text))
unfolding bus_entry split_at require member in_all
bus_of indices m [] = ok []
bus_of indices m (entry ∷ entries) = then_do (bus_entry (split_at 58 entry)) (λ p.
    then_do (require (not (member p.0 indices))) (λ _.
      then_do (require (in_all p.0 m))
        (λ _. then_do (bus_of (p.0 ∷ indices) m entries) (λ rest. ok (p ∷ rest)))))

unfoldable pub on_bus : ℕ → List (ℕ × Text) → Bool
on_bus i [] = false
on_bus i ((j, s) ∷ rest) = i == j || on_bus i rest

-- `set(values) == indices`, where all of `indices` are in `values` already
unfoldable pub is_covered : Mapping → List (ℕ × Text) → Bool
unfolding on_bus
is_covered [] bus = true
is_covered ((i, s) ∷ rest) bus = on_bus i bus && is_covered rest bus

unfoldable pub has_prefix : Text → Text → Bool
has_prefix [] s = true
has_prefix (c ∷ p) [] = false
has_prefix (c ∷ p) (d ∷ s) = c == d && has_prefix p s

unfoldable pub is_allowed : Text → Bool
unfolding text_eq has_prefix
is_allowed key =
    not (has_prefix (codes "DEVICE_SIMULATOR_AXIS_") key)
    || text_eq key (axis_key (codes "IDS"))
    || text_eq key (axis_key (codes "MODELS"))
    || text_eq key (axis_key (codes "MODES"))
    || text_eq key (axis_key (codes "PARAMETER_SETS"))

unfoldable pub all_allowed : Environment → Bool
unfolding is_allowed
all_allowed [] = true
all_allowed ((key, v) ∷ rest) = is_allowed key && all_allowed rest

unfoldable pub raw_devices : Text → Mappings → List (ℕ × Text) → List RawDevice
unfolding raw_device
raw_devices artifact m [] = []
raw_devices artifact m ((i, profile) ∷ rest) =
    raw_device artifact m i profile ∷ raw_devices artifact m rest

-- Some device is a Copley model.
unfoldable pub has_copley : Mappings → List (ℕ × Text) → Bool
unfolding mapped is_copley
has_copley m [] = false
has_copley m ((i, profile) ∷ rest) = is_copley (mapped i m.models) || has_copley m rest

unfoldable pub fmu_folder : Environment → Text
unfolding variable_or strip
fmu_folder env =
    strip (variable_or (codes "./model_artifacts") (codes "DEVICE_SIMULATOR_FMU_DIR") env)

unfoldable pub is_removed : Environment → Bool
unfolding variable
is_removed env = elim (variable (codes "DEVICE_SIMULATOR_CONFIG_FILE") env) [
  | none ↦ false
  | some v ↦ true
]

-- `data` before it is validated
unfoldable pub raw_config : Text → Text → List RawDevice → RawConfig
raw_config nic directory devices = record {
  exact = true;
  schema_version = some (pos 1);
  interface = some nic;
  directory = some directory;
  devices = some devices;
}

-- `load_environment(env, base_directory)`; `join folder` is `folder / 'CopleyDriveSim-linux.fmu'`, and `normal`
-- is `str(Path(...))`.
unfoldable pub load_environment :
    (Text → Text) → (Text → Text) → (Text → Text) → Environment → Result Config
unfolding is_removed require read_mappings required bus_of split_at is_covered all_allowed
    has_copley fmu_folder raw_devices raw_config validate_config
load_environment resolve join normal env = then_do (require (not (is_removed env))) (λ _.
    then_do (read_mappings env) (λ m. then_do (required (codes "DEVICE_SIMULATOR_BUS") env) (λ s.
      then_do (bus_of [] m (split_at 44 s)) (λ bus.
        then_do
          (require (
            is_covered m.ids bus
            && is_covered m.models bus
            && is_covered m.modes bus
            && is_covered m.parameter_sets bus))
          (λ _. then_do (require (all_allowed env)) (λ _.
            then_do (require (not (has_copley m bus) || leb 1 (length (fmu_folder env)))) (λ _.
              then_do (required (codes "DEVICE_SIMULATOR_STATE_DIR") env) (λ state.
                then_do (required (codes "KICKCAT_INTERFACE") env) (λ nic. validate_config resolve (
                  raw_config nic (normal state)
                    (raw_devices (join (fmu_folder env)) m bus)))))))))))
