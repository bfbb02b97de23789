-- ===== src/Callback.antt =====
-- pkg/callback: drift reports, their identifiers, and the senders.
pub mod Reports
pub mod Tracker
pub mod Dedup
pub mod Sender
pub mod Retries
pub mod Multi
pub mod Fanout
pub mod Opened
pub mod Identity
