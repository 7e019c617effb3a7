-- ===== src/Rollout.antt =====
-- The rollout of a workload in batches: the types of apis/standard.oam.dev/v1alpha1 and the
-- controllers of pkg/controller/common/rollout.
pub mod Types
pub mod Texts
pub mod Status
pub mod Batches
pub mod Action
pub mod Webhook
pub mod Selection
pub mod Plan
pub mod Defaults
pub mod Validation
pub mod Workloads
pub mod Samples
pub mod Running
mod Witnesses
