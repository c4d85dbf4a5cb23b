-- ===== src/Copley/Adapter.antt =====
-- The Copley adapter as the axis runtime sees it: `open`, `SIGNATURE` and the methods of `CopleyAdapter` in
-- src/functional_model/cia402_drive/adapter/copley.py and model_definitions/copley_drive_sim.
use ethercat_device_simulato.Prelude.{ℕ, ℤ, pos, Bool, ◌&&◌, ◌||◌, some, List, [], ◌∷◌, leb, ◌==◌}
use ethercat_device_simulato.Exec.{Result, ok, then_do, Exec, raise, catching, ◌>>◌}
use ethercat_device_simulato.Text.{codes}
use ethercat_device_simulato.Value.{Value}
use ethercat_device_simulato.Codec.{Floats}
use ethercat_device_simulato.Numbers.{Numbers}
use ethercat_device_simulato.Od.{read}
use ethercat_device_simulato.RoleIndex.{write_role}
use ethercat_device_simulato.Bridge.{PdoEntry, read_sdo}
use ethercat_device_simulato.Adapter.{DriveAdapter}
use ethercat_device_simulato.Fmi.{
  Native, ModelDescription, Signature, signed, unsigned, boolean, float64, input, output, parameter,
  open_fmu, close as close_runner,
}
use ethercat_device_simulato.Copley.{
  Copley, on_od, on_runner, reading, write_sdo, apply_outputs, read_inputs,
}
use ethercat_device_simulato.Copley.Cycle.{initialize, step}

-- `SIGNATURE`
unfoldable pub signature : Signature
signature =
    (codes "ControlWord", unsigned 16, input)
    ∷ (codes "ModesOfOp", signed 8, input)
    ∷ (codes "TargetPosition", signed 32, input)
    ∷ (codes "TargetVelocity", signed 32, input)
    ∷ (codes "TargetTorque", signed 16, input)
    ∷ (codes "FaultInject", boolean, input)
    ∷ (codes "StatusWord", unsigned 16, output)
    ∷ (codes "ModesDisplay", signed 8, output)
    ∷ (codes "ActualPosition", signed 32, output)
    ∷ (codes "ActualVelocity", signed 32, output)
    ∷ (codes "TorqueActual", signed 16, output)
    ∷ (codes "AmplifierEvent", unsigned 32, output)
    ∷ (codes "ProfileVelocity", float64, parameter)
    ∷ (codes "ProfileAcceleration", float64, parameter)
    ∷ (codes "TorqueTimeConstant", float64, parameter)
    ∷ []

-- The addresses of `persistent_roles`
unfoldable pub is_persistent : ℕ → ℕ → Bool
is_persistent index sub =
    (index == 0x216e && sub == 1)
    || (index == 0x2194 && leb 1 sub && leb sub 4)
    || (sub == 0 && (index == 0x6081 || index == 0x6083 || index == 0x6084))

module _ {F N : Type 0} (finite : F → Bool) (native : Native F N) (floats : Floats F)
    (nums : Numbers (Value F)) (round : Value F → Result ℤ) (seconds : ℕ → Value F)
    (rx tx : List PdoEntry) where
  -- `CopleyAdapter.open(profile, artifact, instance_name)`
  unfoldable pub open_adapter : Result ModelDescription → Exec (Copley F N) (Unit {0})
  unfolding signature
  open_adapter description = do
    on_runner (open_fmu finite native description signature)
    catching (initialize finite native nums round)
        (λ e. do on_runner (close_runner finite native); raise e)

  -- `CopleyAdapter`; `seconds` is the time step in Python's numbers.
  abbrev pub adapter : DriveAdapter (Copley F N)
  adapter = record {
    read_sdo = λ index sub size. reading (read_sdo floats index sub size);
    write_sdo = write_sdo floats nums rx;
    apply_outputs = apply_outputs floats nums rx;
    step = λ dt. step finite native nums round (seconds dt);
    read_inputs = read_inputs floats nums rx tx;
    od_equals = λ index sub n.
        reading
          (λ od. then_do (read index (some sub) od) (λ v. ok (nums.eq v (nums.of_int (pos n)))));
    od_write_role = λ role n. on_od (write_role role (nums.of_int (pos n)));
  }
