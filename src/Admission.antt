-- ===== src/Admission.antt =====
-- pkg/admission: the webhook's handler.
pub mod Annotations
pub mod Preservation
pub mod Observed
pub mod Requests
pub mod Parents
pub mod Modes
pub mod Judgements
pub mod Handling
pub mod Dispatch
pub mod Decisions
pub mod Consumption
