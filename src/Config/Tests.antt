-- ===== src/Config/Tests.antt =====
-- Two axes configured out of order, as src/functional_model/configuration.py reads them.
use ethercat_device_simulato.Prelude.{◌≡◌, refl, arith, some, none, [], ◌∷◌, ◌++◌, get_elem?}
use ethercat_device_simulato.Exec.{ok}
use ethercat_device_simulato.Text.{Text, codes, lstrip, rstrip}
use ethercat_device_simulato.Config.{Config, Device, indices_of}
use ethercat_device_simulato.Config.Environment.{Environment, load_environment}
use ethercat_device_simulato.Config.Loaded.{load_environment-order}

abbrev environment : Environment
environment =
    (codes "DEVICE_SIMULATOR_AXIS_IDS", codes "0:x,1:y")
    ∷ (codes "DEVICE_SIMULATOR_AXIS_MODELS", codes "0:f_kr_cmmt,1:copley_drive_sim")
    ∷ (codes "DEVICE_SIMULATOR_AXIS_MODES", codes "0:linear, 1 : rotary ")
    ∷ (codes "DEVICE_SIMULATOR_AXIS_PARAMETER_SETS", codes "1:set-y,0:set-x")
    ∷ (codes "DEVICE_SIMULATOR_BUS", codes " 1:axis:cia402-drive , 0:axis:cia402-drive")
    ∷ (codes "DEVICE_SIMULATOR_STATE_DIR", codes "/state")
    ∷ (codes "KICKCAT_INTERFACE", codes "eth1")
    ∷ []

abbrev same : Text → Text
same s = s

abbrev artifact : Text → Text
artifact folder = folder ++ codes "/CopleyDriveSim-linux.fmu"

abbrev device_x : Device
device_x = record {
  slave_index = 0;
  id = codes "x";
  profile = codes "cia402-drive";
  model = record { kind = codes "f_kr_cmmt"; mode = codes "linear"; artifact = none };
  parameter_set = codes "set-x";
}

abbrev device_y : Device
device_y = record {
  slave_index = 1;
  id = codes "y";
  profile = codes "cia402-drive";
  model = record {
    kind = codes "copley_drive_sim";
    mode = codes "rotary";
    artifact = some (codes "./model_artifacts/CopleyDriveSim-linux.fmu");
  };
  parameter_set = codes "set-y";
}

abbrev config : Config
config = record {
  interface = codes "eth1";
  directory = codes "/state";
  devices = device_x ∷ device_y ∷ [];
}

accepted : load_environment same artifact same environment ≡ ok config
unfolding load_environment lstrip rstrip
accepted = refl

load_environment-order_example : get_elem? (indices_of config.devices) 1 ≡ some 1
load_environment-order_example =
    load_environment-order same artifact same environment config 1 accepted (omega arith)
