-- ===== src/Ban.antt =====
-- crates/infrarust-core/src/ban and the ban types of crates/infrarust-api.
pub mod Types
pub mod Storage
pub mod View
pub mod Checks
pub mod Keys
pub mod Purge
pub mod Audit
pub mod Requests
pub mod Invariants
mod Tests
