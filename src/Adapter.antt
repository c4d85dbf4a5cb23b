-- ===== src/Adapter.antt =====
-- The drive adapter as the axis runtime sees it: src/functional_model/cia402_drive/adapter/contract.py,
-- with the two accesses to `adapter.od` that device_descriptions/cmmt_as/description.py makes.
use Prim.Native.String.{String}
use ethercat_device_simulato.Prelude.{ℕ, Bool, List}
use ethercat_device_simulato.Exec.{Exec}

-- `DriveAdapter` over an object of type `A`. Byte strings are lists of bytes; a time step is in
-- nanoseconds.
pub record DriveAdapter (A : Type 0) : Type 0 where
  pub read_sdo : ℕ → ℕ → ℕ → Exec A (List ℕ)
  pub write_sdo : ℕ → ℕ → List ℕ → Exec A (Unit {0})
  pub apply_outputs : List ℕ → Exec A (Unit {0})
  pub step : ℕ → Exec A (Unit {0})
  pub read_inputs : Exec A (List ℕ)
  -- `od.read(index, subindex) == n`
  pub od_equals : ℕ → ℕ → ℕ → Exec A Bool
  -- `od.write_role(role, n)`
  pub od_write_role : String → ℕ → Exec A (Unit {0})

-- The `access` text of an Object Dictionary entry, in lower case.
pub data Access : Type 0 where
  ro rw wo unstated : Access

abbrev pub is_wo : Access → Bool
is_wo wo = Bool.true
is_wo _ = Bool.false
