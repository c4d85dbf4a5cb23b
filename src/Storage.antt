-- ===== src/Storage.antt =====
-- The parameter snapshots of src/functional_model/storage/.
pub mod Disk
pub mod Snapshot
pub mod Migration
pub mod Startup
