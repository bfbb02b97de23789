-- ===== src/Trace.antt =====
-- api/v1alpha1/trace_types.go and pkg/trace.
pub mod Types
pub mod Propagator
pub mod Hops
