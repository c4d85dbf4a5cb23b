-- ===== src/Lib.antt =====
-- A model of the EtherCAT device simulator's functional model (the Python under src/functional_model
-- and device_descriptions), and proofs about it. Paths are from the repository's root.
--
-- How the parts interact. The EtherCAT slave process sends requests over a socket; `dispatch_request`
-- (src/functional_model/ipc/server.py) hands each to the fleet, and `ModelFleet.dispatch`
-- (src/functional_model/runtime/fleet.py) to one axis. `Model.dispatch`
-- (src/functional_model/runtime/axis.py) puts every PDO cycle through the axis's fault guard
-- (src/functional_model/diagnostics/fault.py) before and after the drive adapter sees it. The adapter of
-- the built-in drive writes the PDO to an Object Dictionary and steps a servo with a CiA 402 state
-- machine.
--
-- Which file models which part:
--   Exec: Python methods that change an object and may raise: a state comes back beside a result or an
--     error, so what was written before a raise stays written.
--   StateMachine: src/functional_model/cia402_drive/behaviour_model/f_kr_cmmt/state_machine.py.
--   Fault: src/functional_model/diagnostics/fault.py. `self.fault` is the field `diagnosis`.
--   Fault.Exchange: one cycle of the guard as axis.py joins its methods.
--   Adapter, Description, Axis: the adapter protocol, the CMMT's SDO write
--     (device_descriptions/cmmt_as/description.py) and the requests of one axis.
--   Fleet: the axes of a process over the one store that they share, and the answers of the service. The
--     disk of the store goes to the axis that serves a request, and back. Fleet.Snapshots fills the save of
--     an axis with that of Storage.Snapshot.
--   DataType, Value, Codec, Bridge: src/functional_model/cia402_drive/profile, the files metadata.py,
--     codec.py and bridge.py.
--   Od, RoleIndex: object_dictionary.py beside them, and the role index of
--     src/functional_model/cia402_drive/behaviour_model/f_kr_cmmt/od_role_index.py.
--   ConfiguredOd: configured_od.py beside them, with the support check of profile.py.
--   Numbers, Servo: src/functional_model/cia402_drive/behaviour_model/f_kr_cmmt/servo_model.py, one
--     module for each group of its methods.
--   FKrCmmt: src/functional_model/cia402_drive/adapter/f_kr_cmmt.py, which fills the servo's registers
--     with the Object Dictionary and the axis's adapter with the servo.
--   Text: what the program uses of Python's `str`, as lists of character codes.
--   Storage.Disk, Storage.Snapshot: `save` and `load` of
--     src/functional_model/storage/parameter_store.py. Storage.Disk has the file operations of `save`, on
--     a disk with directory entries and file data that reach it only by a sync.
--   Storage.Migration: `migrate_profile_velocity` of src/functional_model/storage/migrate.py.
--   Storage.Startup: the snapshots at the start of a fleet, in src/functional_model/runtime/fleet.py.
--   Config, Config.Environment: `validate_config` and `load_environment` of
--     src/functional_model/configuration.py.
--   Fmi: `Fmi3Runner` of src/functional_model/runtime/fmi/runner.py.
--   Copley: `CopleyAdapter` of src/functional_model/cia402_drive/adapter/copley.py, in Copley.Cycle its
--     `step`, in Copley.Adapter its methods as a drive adapter.
--   Supervisor: docker/service.py. Each loop of `main` runs over a list of what its rounds observe.
--
-- What stands as a parameter: the drive adapter (a record of its operations, any of which may raise),
-- the parameter store's save where an axis calls it, JSON and SHA-256 where the store uses them, the native
-- FMU with its archive, the resolution of paths, what the supervisor observes of the system and how a child
-- takes its signals, the numbers of the servo and of the Copley adapter (Python's `int` and `float` behind
-- one record of operations), the servo's registers, the ESI catalogue, and what the codec uses of floats
-- and texts. The times of the requests and of the supervisor are natural numbers of nanoseconds; those of
-- the FMU and of the Copley adapter are Python numbers.
--
-- One loop runs on fuel, the `while` of CopleyAdapter.step: `dt` is at most 0.1 s and less than one period
-- of 2 ms is left over, which makes 51 rounds at most, and the fuel is 64; a loop that is not done with its
-- fuel raises, so that a step which returns has ended by the loop's own test. Every other loop of the
-- modelled code runs over a list.
--
-- Not modelled: sockets, XML, hashes, log lines, timing statistics and the random diagnostic ids; the ESI
-- catalogue, the reading of .env files, the choice of an adapter; the C++ slave process, the scripts and
-- third-party code.
mod Prelude
pub mod Exec
pub mod StateMachine
pub mod Fault
pub mod Adapter
pub mod Description
pub mod Axis
pub mod Fleet
pub mod DataType
pub mod Value
pub mod Od
pub mod RoleIndex
pub mod Codec
pub mod Bridge
pub mod ConfiguredOd
pub mod Numbers
pub mod Servo
pub mod FKrCmmt
pub mod Text
pub mod Storage
pub mod Config
pub mod Supervisor
pub mod Fmi
pub mod Copley
