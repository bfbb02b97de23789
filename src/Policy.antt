-- ===== src/Policy.antt =====
-- pkg/policy and the policy types of api/v1alpha1.
pub mod Types
pub mod Store
pub mod Resolution
pub mod Best
pub mod Precedence
pub mod Conditions
pub mod Rules
pub mod Expansion
pub mod Webhook
pub mod Coverage
pub mod Grouping
pub mod Scope
pub mod Roles
pub mod Reconcile
pub mod Reconciled
pub mod Outcomes
pub mod Released
