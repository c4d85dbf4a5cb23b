-- ===== src/Config/Loaded.antt =====
-- The devices that `load_environment` of src/functional_model/configuration.py returns.
use ethercat_device_simulato.Prelude.{
  ℕ, ◌≡◌, ◌<◌, not, ◌&&◌, ◌||◌, some, [], length, leb, get_elem?,
}
use ethercat_device_simulato.Exec.{ok, ResultHas, then_do-has, ResultHas-ok}
use ethercat_device_simulato.Text.{Text, codes}
use ethercat_device_simulato.Config.{Config, require, indices_of}
use ethercat_device_simulato.Config.Order.{Ordered, validated-Ordered}
use ethercat_device_simulato.Config.Environment.{
  Environment, is_removed, read_mappings, required, bus_of, split_at, is_covered, all_allowed,
  has_copley, fmu_folder, raw_config, raw_devices, load_environment,
}

module _ (resolve join normal : Text → Text) where
  loaded-Ordered :
      (env : Environment)
      → ResultHas (λ c. Ordered c.devices) (load_environment resolve join normal env)
  unfolding load_environment
  loaded-Ordered env =
      let P : Config → Type 0 = λ c. Ordered c.devices in
      then_do-has P (require (not (is_removed env))) _ (λ _ _.
        then_do-has P (read_mappings env) _ (λ m _.
          then_do-has P (required (codes "DEVICE_SIMULATOR_BUS") env) _ (λ s _.
            then_do-has P (bus_of [] m (split_at 44 s)) _ (λ bus _.
              then_do-has P
                (require (
                  is_covered m.ids bus
                  && is_covered m.models bus
                  && is_covered m.modes bus
                  && is_covered m.parameter_sets bus))
                _
                (λ _ _. then_do-has P (require (all_allowed env)) _ (λ _ _.
                  then_do-has P
                    (require (not (has_copley m bus) || leb 1 (length (fmu_folder env)))) _
                    (λ _ _.
                      then_do-has P (required (codes "DEVICE_SIMULATOR_STATE_DIR") env) _
                        (λ state _.
                          then_do-has P (required (codes "KICKCAT_INTERFACE") env) _ (λ nic _.
                            validated-Ordered resolve (
                              raw_config nic (normal state)
                                (raw_devices (join (fmu_folder env)) m bus)))))))))))

  -- In the configuration of an accepted environment, the device at place `i` has slave index `i`.
  pub load_environment-order :
      (env : Environment) (c : Config) (i : ℕ)
      → load_environment resolve join normal env ≡ ok c
      → i < length c.devices
      → get_elem? (indices_of c.devices) i ≡ some i
  unfolding Ordered
  load_environment-order env c i e h =
      ResultHas-ok (λ c. Ordered c.devices) (load_environment resolve join normal env) c e
        (loaded-Ordered env) i h
