-- ===== src/Kernel.antt =====
-- walter/orchestration.py: the Manager-only control plane of a run.
pub mod Monad
pub mod Transitions
pub mod Lineage
pub mod Readiness
pub mod Authority
pub mod Assignment
pub mod Evidence
pub mod Recovery
pub mod Operator
pub mod Workspace
pub mod Planning
pub mod Approvals
pub mod Capabilities
pub mod Completion
pub mod Replanning
pub mod Evolution
pub mod Acceptance
pub mod Routing
