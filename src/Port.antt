-- ===== src/Port.antt =====
-- Port contract version 2: pkg/contracts/system_update_port_v2.go and the port parts of
-- types_system_updates.go and system_update_port_validation.go.
pub mod Types
pub mod Create
pub mod Baseline
pub mod DockerConfig
pub mod Mode
pub mod Outcome
pub mod ServiceType
pub mod Deployment
pub mod Snapshot
pub mod Wire
pub mod Plan
pub mod Result
pub mod Document
pub mod Entry
pub mod Samples
pub mod Running
mod Tests
