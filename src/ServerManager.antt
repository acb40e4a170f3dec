-- ===== src/ServerManager.antt =====
-- crates/infrarust_server_manager/src: the state of managed servers.
pub mod State
pub mod Service
pub mod Monitor
mod Waiters
pub mod Events
pub mod Startup
pub mod Idle
pub mod Herd
pub mod Stop
mod Tests
