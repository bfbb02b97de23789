-- ===== src/Controller.antt =====
-- pkg/controller/tracker.go: user hashes, and the tracker that records controllers and phases.
pub mod Hashes
pub mod Capped
pub mod Username
pub mod Pending
pub mod Recording
pub mod Recorded
pub mod Phases
pub mod Scheduled
