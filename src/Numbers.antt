-- ===== src/Numbers.antt =====
-- What the servo model uses of Python's numbers and of its Object Dictionary. Floats are not modelled
-- bit by bit: numbers, `int` and `float` alike, are a type `N` with the operations below.
use Prim.Native.String.{String}
use ethercat_device_simulato.Prelude.{ℕ, ℤ, Bool}
use ethercat_device_simulato.Exec.{Result, Exec}

pub record Numbers (N : Type 0) : Type 0 where
  pub of_int : ℤ → N
  -- The literal `m * 10 ** -e`, as `decimal 25 2` for 0.25.
  pub decimal : ℕ → ℕ → N
  pub add : N → N → N
  pub sub : N → N → N
  pub mul : N → N → N
  -- `a / b`, which raises for a zero divisor
  pub div : N → N → Result N
  pub neg : N → N
  pub abs : N → N
  pub lt : N → N → Bool
  pub le : N → N → Bool
  pub eq : N → N → Bool
  -- `float(a)`, `int(a)`, and the operand of `&`, which must be an `int`
  pub to_float : N → N
  pub to_int : N → Result ℤ
  pub to_index : N → Result ℤ
  -- `10.0 ** k`
  pub power_of_ten : ℤ → N

-- The Object Dictionary of the model: an object of type `O`.
pub record Registers (O N : Type 0) : Type 0 where
  pub read : ℕ → ℕ → O → Result N
  pub write : ℕ → ℕ → N → Exec O (Unit {0})
  pub read_role : String → O → Result N
  pub write_role : String → N → Exec O (Unit {0})
  pub reset_non_pdo_configuration : Exec O (Unit {0})
  pub reset_pdo_values : Exec O (Unit {0})
