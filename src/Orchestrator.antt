-- ===== src/Orchestrator.antt =====
-- The orchestrator (orchestrator/orchestrator.js, orchestrator/checkpoint.js), which moves a project
-- from state to state.
pub mod Operations
pub mod Transition
pub mod History
pub mod Kept
pub mod Resume
pub mod Retry
pub mod Owner
pub mod Approval
pub mod World
pub mod Implementation
pub mod Foundation
pub mod Provision
pub mod Release
pub mod Review
pub mod Dispatch
pub mod Rounds
pub mod Released
pub mod Overruled
pub mod Observation
pub mod Looked
pub mod Onward
pub mod Observed
pub mod Requested
pub mod Founding
pub mod Reviewing
pub mod Recorded
mod Observing
mod Examples
