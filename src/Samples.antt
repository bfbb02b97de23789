-- ===== src/Samples.antt =====
-- Concrete clusters, codecs and inputs, and the theorems at them.
mod Fixtures
mod Approvals
mod Drifts
mod Hashes
mod Policies
mod Traces
mod Requests
mod Recordings
mod Plugins
mod Rules
mod Screens
mod Senders
mod Webhooks
mod Reconciles
mod Configs
mod Callbacks
mod Reports
