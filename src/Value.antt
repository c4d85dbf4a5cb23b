-- ===== src/Value.antt =====
-- The values that an Object Dictionary entry holds: Python's `int | float | str | bytes`. The type `F`
-- of floats is a parameter. A `bool` is the integer 0 or 1; a text is the list of its characters' codes.
use ethercat_device_simulato.Prelude.{ℕ, ℤ, List}

pub data Value (F : Type 0) : Type 0 where
  int : ℤ → Value F
  float : F → Value F
  str : List ℕ → Value F
  bytes : List ℕ → Value F
