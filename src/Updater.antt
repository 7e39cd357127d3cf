-- ===== src/Updater.antt =====
-- The Updater's command, lease, progress, result and grant validators, of
-- pkg/contracts/updater_runtime_validation.go.
pub mod Types
pub mod Capability
pub mod Desired
pub mod Mutation
pub mod Outcome
pub mod TargetKind
pub mod Status
pub mod Wire
pub mod Platform
pub mod Target
pub mod Command
pub mod Lease
pub mod Evidence
pub mod Result
pub mod Document
pub mod Entry
mod Samples
mod Running
mod Tests
