-- ===== src/Manager.antt =====
-- cuttlefish/cfctl/src/daemon/manager.rs: the instance manager, one module for each of its parts.
pub mod Metadata
pub mod Cleanup
pub mod Alloc
pub mod Tail
pub mod Logs
pub mod Launch
pub mod Terminate
pub mod Adb
pub mod Start
pub mod Destroy
pub mod Prune
pub mod Handle
