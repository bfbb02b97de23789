-- ===== src/Drift.antt =====
-- pkg/drift: the parent of an object, its lifecycle phase, and the detection of drift.
pub mod State
pub mod Lifecycle
pub mod Resolver
pub mod Detector
pub mod Verdicts
pub mod Observed
