-- ===== src/Policy.antt =====
-- The installed root policy and its bounded change, of pkg/contracts/system_update_port_policy.go.
pub mod Root
pub mod Target
pub mod Allowed
pub mod Delta
pub mod Tests
