-- ===== src/Fmi.antt =====
-- The runner of an FMU: `Fmi3Runner` of src/functional_model/runtime/fmi/runner.py. The native FMU and the
-- reading of its archive (fmpy) are parameters, and so is the arithmetic of the times.
pub mod Latch
mod Tests
use ethercat_device_simulato.Prelude.{
  ℕ, zero, suc, ◌+◌, ◌-◌, ◌^◌, ℤ, pos, negsuc, Bool, true, false, not, ◌&&◌, ◌||◌, Option, none,
  some, List, [], ◌∷◌, if◌then◌else◌, ltb, ◌==◌, ltb_ℤ, leb_ℤ,
}
use ethercat_device_simulato.Exec.{
  Error, value_error, key_error, runtime_error, Result, ok, err, Exec, pure, raise, lift, gets,
  modify, check, catching, on_part, ◌>>=◌, ◌>>◌,
}
use ethercat_device_simulato.Text.{Text, text_eq}
use ethercat_device_simulato.Value.{Value, int, float}
use ethercat_device_simulato.Numbers.{Numbers}

-- The `type` of an FMU variable: `Int8` to `Int64` and `UInt8` to `UInt64` by their bits, and the others.
pub data FmuType : Type 0 where
  signed unsigned : ℕ → FmuType
  boolean float64 float32 other_type : FmuType

pub data Causality : Type 0 where
  input parameter output local_variable : Causality

-- `ScalarVariable`, as far as the runner reads it
pub record Variable : Type 0 where
  pub name : Text
  pub fmu_type : FmuType
  pub causality : Causality
  pub has_dimensions : Bool
  pub reference : ℕ

-- A Python value given to the FMU, where a `bool` is told apart from an `int`.
pub data Input (F : Type 0) : Type 0 where
  number : Value F → Input F
  truth : Bool → Input F

-- What `doStep` returns, without the last reached time.
pub record StepFlags : Type 0 where
  pub event_needed : Bool
  pub terminate : Bool
  pub early_return : Bool

-- `FMU3Slave` over a native instance of type `N`.
pub record Native (F N : Type 0) : Type 0 where
  pub instantiate : Exec N (Unit {0})
  pub enter_initialization : Exec N (Unit {0})
  pub exit_initialization : Exec N (Unit {0})
  pub set : ℕ → Input F → Exec N (Unit {0})
  pub get : ℕ → Exec N (Value F)
  pub do_step : Value F → Value F → Exec N StepFlags
  pub terminate : Exec N (Unit {0})
  pub free : Exec N (Unit {0})
  pub has_component : N → Bool

-- `read_model_description`
pub record ModelDescription : Type 0 where
  pub is_fmi_3 : Bool
  pub has_co_simulation : Bool
  pub variables : List Variable

-- `Fmi3Runner`; `fmu` is `self._fmu is not None`, with the native instance in `native`.
pub record Runner (F N : Type 0) : Type 0 where
  pub native : N
  pub fmu : Bool
  pub initialized : Bool
  pub failed : Bool
  pub time : Value F
  pub variables : List Variable

unfoldable pub type_eq : FmuType → FmuType → Bool
type_eq (signed a) (signed b) = a == b
type_eq (unsigned a) (unsigned b) = a == b
type_eq boolean boolean = true
type_eq float64 float64 = true
type_eq float32 float32 = true
type_eq other_type other_type = true
type_eq _ _ = false

unfoldable pub causality_eq : Causality → Causality → Bool
causality_eq input input = true
causality_eq parameter parameter = true
causality_eq output output = true
causality_eq local_variable local_variable = true
causality_eq _ _ = false

-- `self.variables.get(name)`; a model description has each name once.
unfoldable pub variable : Text → List Variable → Option Variable
unfolding text_eq
variable name [] = none
variable name (v ∷ vs) = if text_eq v.name name then some v else variable name vs

-- A row of the signature: a name with its type and causality.
abbrev pub Signature : Type 0
Signature = List (Text × FmuType × Causality)

unfoldable pub matches : Option Variable → FmuType → Causality → Bool
unfolding type_eq causality_eq
matches none t c = false
matches (some v) t c = type_eq v.fmu_type t && causality_eq v.causality c && not v.has_dimensions

unfoldable pub is_signature : Signature → List Variable → Bool
unfolding matches variable
is_signature [] vs = true
is_signature ((name, t, c) ∷ rest) vs = matches (variable name vs) t c && is_signature rest vs

-- The bounds of `set`: `low <= value <= high`.
unfoldable pub in_range : FmuType → ℤ → Bool
in_range (signed bits) (pos v) = ltb v (2 ^ (bits - 1))
in_range (signed bits) (negsuc v) = ltb v (2 ^ (bits - 1))
in_range (unsigned bits) (pos v) = ltb v (2 ^ bits)
in_range (unsigned bits) (negsuc v) = false
in_range t v = true

unfoldable pub is_integer_type : FmuType → Bool
is_integer_type (signed bits) = true
is_integer_type (unsigned bits) = true
is_integer_type t = false

-- A `bool` is an `Integral` too.
unfoldable pub is_integral : {F : Type 0} → FmuType → Input F → Bool
unfolding in_range
is_integral t (number (int v)) = in_range t v
is_integral t (truth true) = in_range t (pos 1)
is_integral t (truth false) = in_range t (pos 0)
is_integral t (number v) = false

unfoldable pub is_truth : {F : Type 0} → Input F → Bool
is_truth (truth b) = true
is_truth (number v) = false

unfoldable pub is_boolean_type : FmuType → Bool
is_boolean_type boolean = true
is_boolean_type t = false

unfoldable pub is_writable : Causality → Bool
is_writable input = true
is_writable parameter = true
is_writable c = false

unfoldable pub is_finite : {F : Type 0} → (F → Bool) → Input F → Bool
is_finite finite (number (float x)) = finite x
is_finite finite value = true

unfoldable pub require_variable : {S : Type 0} → Option Variable → Exec S Variable
require_variable none = raise key_error
require_variable (some v) = pure v

module _ {F N : Type 0} (finite : F → Bool) (native : Native F N) where
  abbrev pub on_native : {X : Type 0} → Exec N X → Exec (Runner F N) X
  on_native = on_part (λ (r : Runner F N). r.native) (λ n r. record r { native = n })

  -- `_check()`
  unfoldable pub check_usable : Exec (Runner F N) (Unit {0})
  check_usable = do usable ← gets (λ r. r.initialized && not r.failed); check usable runtime_error

  -- `except Exception: self.failed = True; raise`
  unfoldable pub latched : {X : Type 0} → Exec (Runner F N) X → Exec (Runner F N) X
  latched m = catching m (λ e. do modify (λ r. record r { failed = true }); raise e)

  -- `set(name, value)`
  unfoldable pub set : Text → Input F → Exec (Runner F N) (Unit {0})
  unfolding check_usable require_variable is_writable is_finite is_integer_type is_integral
      is_boolean_type is_truth latched
  set name value = do
    check_usable
    v ← (λ r. require_variable (variable name r.variables) r)
    check (is_writable v.causality) value_error
    check (is_finite finite value) value_error
    check (not (is_integer_type v.fmu_type) || is_integral v.fmu_type value) value_error
    check (not (is_boolean_type v.fmu_type) || is_truth value) value_error
    latched (on_native (native.set v.reference value))

  -- `get(name)`
  unfoldable pub get : Text → Exec (Runner F N) (Value F)
  unfolding check_usable require_variable latched
  get name = do
    check_usable
    v ← (λ r. require_variable (variable name r.variables) r)
    latched (on_native (native.get v.reference))

  -- A call in the body of a `try` whose `finally` goes on with `after`, which replaces the error if it raises.
  unfoldable pub finally :
      Exec (Runner F N) (Unit {0}) → Exec (Runner F N) (Unit {0}) → Exec (Runner F N) (Unit {0})
  finally m after r =
      let (result, r') = m r in let (last, r'') = after r' in (finished result last, r'')
    where
      finished : Result (Unit {0}) → Result (Unit {0}) → Result (Unit {0})
      finished result (ok _) = result
      finished result (err e) = err e

  -- The inner `try` of `close`.
  unfoldable pub release : Exec (Runner F N) (Unit {0})
  unfolding finally
  release =
      finally
        (λ r. if r.initialized && not r.failed then on_native native.terminate r else (ok tt, r))
        (λ r. if native.has_component r.native then on_native native.free r else (ok tt, r))

  -- `close()`; the temporary folder is left out.
  unfoldable pub close : Exec (Runner F N) (Unit {0})
  unfolding finally release
  close =
      finally (λ r. let r' = record r { fmu = false } in if r.fmu then release r' else (ok tt, r'))
        (λ r. (ok tt, record r { initialized = false }))

  -- `__init__` up to the handler.
  unfoldable pub start : ModelDescription → Signature → Exec (Runner F N) (Unit {0})
  unfolding is_signature
  start md signature = do
    check (md.is_fmi_3 && md.has_co_simulation) value_error
    modify (λ r. record r { variables = md.variables })
    check (is_signature signature md.variables) value_error
    modify (λ r. record r { fmu = true })
    on_native native.instantiate
    on_native native.enter_initialization
    on_native native.exit_initialization
    modify (λ r. record r { initialized = true })

  -- The attributes that `__init__` sets first; `zero_time` is `0.0`.
  unfoldable pub new : Value F → N → Runner F N
  new zero_time n = record {
    native = n;
    fmu = false;
    initialized = false;
    failed = false;
    time = zero_time;
    variables = [];
  }

  -- `Fmi3Runner(artifact, signature)`; `close` of the handler may raise in place of the error.
  unfoldable pub open_fmu : Result ModelDescription → Signature → Exec (Runner F N) (Unit {0})
  unfolding start close
  open_fmu description signature =
      catching (do md ← lift description; start md signature) (λ e. do close; raise e)

module _ {F N : Type 0} (finite : F → Bool) (native : Native F N) (nums : Numbers (Value F)) where
  -- The body of `try` in `step`.
  unfoldable pub advance : Value F → Exec (Runner F N) (Unit {0})
  advance dt = do
    now ← gets (λ r. r.time)
    flags ← on_native finite native (native.do_step now dt)
    check (not (flags.event_needed || flags.terminate || flags.early_return)) runtime_error
    modify (λ r. record r { time = nums.add r.time dt })

  -- `step(dt)`
  unfoldable pub step : Value F → Exec (Runner F N) (Unit {0})
  unfolding check_usable is_finite latched advance
  step dt = do
    check_usable finite native
    check (is_finite finite (number dt) && not (nums.le dt (nums.decimal 0 0))) value_error
    latched finite native (advance dt)
