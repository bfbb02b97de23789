-- ===== src/Plugin.antt =====
-- cmd/example-generic-control-plane/pkg/admission/kausality.go: the admission plugin around the
-- handler.
pub mod Pointer
pub mod Document
pub mod Escapes
pub mod Patched
pub mod Admit
pub mod Admitted
pub mod Entries
pub mod Annotated
