-- ===== src/RunService.antt =====
-- sacm/core/run_service.py, with the checkpoints of sacm/core/snapshot_service.py.
pub mod Events
pub mod Chain
pub mod Validation
pub mod Saving
pub mod Frame
pub mod Lifecycle
pub mod Completion
pub mod Logged
pub mod Histories
pub mod Snapshots
pub mod Transitions
pub mod Creation
pub mod Steps
pub mod Recovery
pub mod Cancellation
pub mod Idempotence
pub mod Recovered
pub mod Restore
pub mod Restored
pub mod Roundtrip
