-- ===== src/Copley/Tests.antt =====
-- One cycle of the Copley adapter of src/functional_model/cia402_drive/adapter/copley.py.
use Prim.Native.String.{String}
use ethercat_device_simulato.Prelude.{
  ℕ, ◌+◌, ◌-◌, ◌*◌, ◌^◌, ◌<◌, ◌≡◌, refl, arith, ℤ, pos, Bool, true, false, none, some, List, [],
  ◌∷◌, ltb, leb,
}
use ethercat_device_simulato.Numbers.{Numbers}
use ethercat_device_simulato.Exec.{Result, ok, ◌>>=◌}
use ethercat_device_simulato.Text.{codes}
use ethercat_device_simulato.Value.{Value, int}
use ethercat_device_simulato.DataType.{int32}
use ethercat_device_simulato.Od.{OdModel, Changes, empty, define}
use ethercat_device_simulato.FKrCmmt.Tests.{values, whole_of}
use ethercat_device_simulato.Fmi.{
  Native, Variable, FmuType, signed, unsigned, boolean, float64, Causality, input, parameter,
  output, set, get, step as step_fmu,
}
use ethercat_device_simulato.Copley.{Copley}
use ethercat_device_simulato.Copley.Cycle.{is_due, drain, run_steps, step}
use ethercat_device_simulato.Copley.Steps.{quiet, due}

-- An FMU that counts its calls.
abbrev fmu : Native ℕ ℕ
fmu = record {
  instantiate = λ n. (ok tt, n + 1);
  enter_initialization = λ n. (ok tt, n + 1);
  exit_initialization = λ n. (ok tt, n + 1);
  set = λ reference value n. (ok tt, n + 1);
  get = λ reference n. (ok (int (pos n)), n + 1);
  do_step = λ now dt n. (ok quiet, n + 1);
  terminate = λ n. (ok tt, n + 1);
  free = λ n. (ok tt, n + 1);
  has_component = λ n. true;
}

abbrev variable_of : String → FmuType → Causality → Variable
variable_of name t c = record {
  name = codes name;
  fmu_type = t;
  causality = c;
  has_dimensions = false;
  reference = 0;
}

abbrev variables : List Variable
variables =
    variable_of "ControlWord" (unsigned 16) input
    ∷ variable_of "ModesOfOp" (signed 8) input
    ∷ variable_of "TargetPosition" (signed 32) input
    ∷ variable_of "TargetVelocity" (signed 32) input
    ∷ variable_of "TargetTorque" (signed 16) input
    ∷ variable_of "FaultInject" boolean input
    ∷ variable_of "StatusWord" (unsigned 16) output
    ∷ variable_of "ModesDisplay" (signed 8) output
    ∷ variable_of "ActualPosition" (signed 32) output
    ∷ variable_of "ActualVelocity" (signed 32) output
    ∷ variable_of "TorqueActual" (signed 16) output
    ∷ variable_of "ProfileVelocity" float64 parameter
    ∷ variable_of "ProfileAcceleration" float64 parameter
    ∷ []

abbrev object : ℕ → Changes ℕ
object n = record {
  name = "";
  data_type = int32;
  bit_size = 32;
  access = none;
  default = some (int (pos n));
  role = none;
  rxpdo = none;
  txpdo = none;
}

abbrev od_of : List (ℕ × ℕ) → OdModel ℕ
unfolding define
od_of [] = empty
od_of ((index, n) ∷ rest) = define index 0 (object n) (od_of rest)

abbrev od : OdModel ℕ
od = od_of (
    (0x6040, 0x10f)
    ∷ (0x6060, 1)
    ∷ (0x607a, 100)
    ∷ (0x6081, 5)
    ∷ (0x6083, 7)
    ∷ (0x6084, 7)
    ∷ (0x6041, 0)
    ∷ (0x6061, 1)
    ∷ (0x6064, 0)
    ∷ (0x6077, 0)
    ∷ (0x606c, 0)
    ∷ [])

-- One millisecond is left over, in picoseconds.
abbrev drive : Copley ℕ ℕ
drive = record {
  od = od;
  runner = record {
    native = 0;
    fmu = true;
    initialized = true;
    failed = false;
    time = int (pos 0);
    variables = variables;
  };
  remainder = int (pos 1000000000);
  fault = false;
  velocity_factor = int (pos 1);
  acceleration_factor = int (pos 1);
}

abbrev all_finite : ℕ → Bool
all_finite x = true

abbrev round : Value ℕ → Result ℤ
round v = ok (whole_of v)

-- Picoseconds in whole numbers, for which 1e-12 s is 1.
abbrev count : Value ℕ → ℕ
count (int (pos n)) = n
count v = 0

abbrev picoseconds : Numbers (Value ℕ)
picoseconds = record values {
  decimal = λ m e. int (pos (m * 10 ^ (12 - e)));
  add = λ a b. int (pos (count a + count b));
  sub = λ a b. int (pos (count a - count b));
  lt = λ a b. ltb (count a) (count b);
  le = λ a b. leb (count a) (count b);
}

-- The remainder of 11 ms in the loop.
abbrev behind : Copley ℕ ℕ
behind = record drive { remainder = int (pos 11000000000) }

lower :
    (left : Value ℕ)
    → due all_finite fmu picoseconds round left ≡ true
    → count (drain all_finite fmu picoseconds round left) < count left
unfolding is_due drain
lower left h = ground arith

five_rounds :
    ((run_steps all_finite fmu picoseconds round 11000000000 behind).1.runner.native ≡ 5)
    × ((run_steps all_finite fmu picoseconds round 11000000000 behind).1.remainder
        ≡ int (pos 1000000000))
unfolding run_steps step_fmu ◌>>=◌
five_rounds = (refl, refl)
