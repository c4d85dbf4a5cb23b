-- ===== src/Axis/Dispatch/Errors.antt =====
-- Which exceptions leave an axis: `Model.dispatch` of src/functional_model/runtime/axis.py.
use ethercat_device_simulato.Prelude.{ℕ, ◌≡◌, arith, Bool, true, false}
use ethercat_device_simulato.Exec.{Error, runtime_error, other, Result, ok, err, catch_with}
use ethercat_device_simulato.Axis.{
  Device, Model, Request, read, write, idle, describe, unknown, cycle, Response, access_model,
}
use ethercat_device_simulato.Axis.Dispatch.{
  access, guarded_access, unless_restart, read_guarded, is_expected, dispatch,
}

-- The exceptions for which the service has an SDO abort code.
abbrev pub has_abort_code : Error → Bool
has_abort_code runtime_error = false
has_abort_code other = false
has_abort_code _ = true

abbrev pub is_sdo : Request → Bool
is_sdo (read index sub) = true
is_sdo (write index sub hex) = true
is_sdo _ = false

is_expected-has_abort_code :
    (r : Request) (e : Error) → is_expected r e ≡ true → has_abort_code e ≡ true
is_expected-has_abort_code (read i s) e h = ground arith
is_expected-has_abort_code (write i s x) e h = ground arith
is_expected-has_abort_code describe e h = ground arith
is_expected-has_abort_code idle e h = ground arith
is_expected-has_abort_code unknown e h = ground arith
is_expected-has_abort_code (cycle x) e h = ground arith

-- An answer, or an exception with an abort code.
abbrev pub Answerable : Result Response → Type 0
Answerable r = (e : Error) → r ≡ err e → has_abort_code e ≡ true

module _ {A D : Type 0} (device : Device A D) where
  guarded-Answerable :
      (wall : ℕ) (request : Request) (e : Error) (m : Model A D)
      → Answerable (guarded_access device wall request e m).0
  unfolding guarded_access
  guarded-Answerable wall request e m f h = ground (arith, is_expected-has_abort_code request e)

  caught-Answerable :
      (wall : ℕ) (request : Request) (x : Result Response × Model A D)
      → Answerable (catch_with x (guarded_access device wall request)).0
  caught-Answerable wall request (ok r, m) f h = cc
  caught-Answerable wall request (err e, m) f h = guarded-Answerable wall request e m f h

  access-Answerable :
      (wall : ℕ) (request : Request) (m : Model A D) → Answerable (access device wall request m).0
  unfolding access
  access-Answerable wall request m =
      caught-Answerable wall request (access_model device wall request m)

  -- An SDO read or write of an axis returns, or raises an exception that has an SDO abort code.
  pub sdo-Answerable :
      (wall mono : ℕ) (request : Request) (m : Model A D)
      → is_sdo request ≡ true
      → Answerable (dispatch device wall mono request m).0
  unfolding dispatch read_guarded unless_restart
  sdo-Answerable wall mono (read i s) m h f k =
      ground (arith, access-Answerable wall (read i s) m f)
  sdo-Answerable wall mono (write i s x) m h f k =
      ground (arith, access-Answerable wall (write i s x) m f)
  sdo-Answerable wall mono describe m h f k = cc
  sdo-Answerable wall mono idle m h f k = cc
  sdo-Answerable wall mono unknown m h f k = cc
  sdo-Answerable wall mono (cycle x) m h f k = cc
