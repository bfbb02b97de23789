-- ===== src/Policy/Released.antt =====
-- pkg/policy/controller.go: what `Reconcile` has done when it finishes a policy that is being deleted.
