-- ===== src/Visual.antt =====
-- The video cover's requests, responses and runtime states, of
-- pkg/contracts/visual_runtime_validation.go.
pub mod Types
pub mod Code
pub mod Outcome
pub mod Errors
pub mod Asset
pub mod State
pub mod Response
pub mod Entry
pub mod Samples
pub mod Running
mod Tests
