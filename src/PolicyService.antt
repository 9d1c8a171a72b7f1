-- ===== src/PolicyService.antt =====
-- sacm/core/policy_service.py: what a tool action or an execution plan is allowed to do.
pub mod Plans
pub mod Gates
pub mod Actions
pub mod Approvals
pub mod Gateway
pub mod Authorization
pub mod Decisions
