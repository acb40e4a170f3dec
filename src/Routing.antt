-- ===== src/Routing.antt =====
-- crates/infrarust-core/src/routing/domain_router.rs and what it uses: from the address of a
-- handshake to the configuration of a server.
pub mod Types
pub mod Router
pub mod Resolve
mod Owners
pub mod Registered
pub mod Routes
mod Tests
