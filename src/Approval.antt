-- ===== src/Approval.antt =====
-- api/v1alpha1/approval_types.go and pkg/approval: approvals and rejections on a parent object.
pub mod Types
pub mod Rejections
pub mod Notices
pub mod Checker
pub mod Pruner
pub mod Actions
pub mod Clearing
pub mod FirstMatch
pub mod Effects
pub mod Applied
pub mod Verdict
pub mod Consumption
pub mod Pruning
