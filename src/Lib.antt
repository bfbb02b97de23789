-- ===== src/Lib.antt =====
-- Kausality: drift detection for Kubernetes controllers, and its approvals.
--
-- An admission webhook sees every mutation of a tracked object. It resolves the object's controller
-- parent, asks whether the parent is in its steady state and whether the user is the parent's
-- controller, and calls the change drift if the controller acts although the parent has nothing
-- new to be done. Approvals and rejections on the parent decide on drift in enforce mode.
--
-- Parts and files:
-- - Annotations: the keys and constants of api/v1alpha1/annotations.go.
-- - Kube: what the program reads of Kubernetes objects, and the API client and the JSON codec that
--   it is handed. These two are parameters of the model.
-- - Approval: api/v1alpha1/approval_types.go (Types, Rejections, Notices) and pkg/approval
--   (Checker, Pruner, Actions, Clearing). FirstMatch, Verdict, Consumption, Pruning, Effects and
--   Applied hold the proofs.
-- - Controller: pkg/controller/tracker.go, the user hashes (Hashes, Username, with `addHash` of
--   pkg/admission/handler.go), the updates that are pending (Pending), and their recording on an
--   object (Recording); proofs in Capped, Recorded, Phases and Scheduled. `RetryOnConflict` is a
--   parameter.
-- - Drift: pkg/drift (State, Lifecycle, Resolver, Detector); proofs in Lifecycle, Verdicts and
--   Observed.
-- - Policy: api/v1alpha1/kausality_types.go, pkg/policy/store.go and watcher.go (Types, Store,
--   Resolution), and of pkg/policy/controller.go the resources of a rule, the rules of the webhook and of the
--   cluster roles, the conditions and the reconciler (Rules, Webhook, Conditions, Reconcile);
--   proofs in Best, Precedence, Expansion, Coverage, Grouping, Scope, Roles, Conditions, Reconciled,
--   Outcomes and Released.
-- - Trace: api/v1alpha1/trace_types.go and pkg/trace (Types, Propagator); proofs in Hops.
-- - Config: pkg/config/config.go, the legacy configuration, with its proof.
-- - Callback: pkg/callback/v1alpha1/types.go and pkg/callback/id.go (Reports), tracker.go (Tracker),
--   sender.go and multi_sender.go (Sender, Multi); proofs in Dedup, Retries, Fanout,
--   Opened and Identity. The network is a parameter.
-- - Plugin: cmd/example-generic-control-plane/pkg/admission/kausality.go, the handler inside an API
--   server: the paths of JSON patches (Pointer), patches on objects (Document) and the plugin (Admit);
--   proofs in Escapes, Patched, Entries, Annotated and Admitted.
-- - Backend: pkg/backend/store.go, with its proofs; below it server.go (Server, with its proof) and
--   tui.go (Screen; proofs in Cursor), the terminal interface over the same store.
-- - Cli: cmd/kausality-cli/pkg/cli, the listing of drifts and the actions on one (Items), the model
--   of the terminal interface (Model) and its commands (Commands); proofs in Runs.
-- - Admission: pkg/admission. Annotations computes the annotations of an update, Requests holds
--   requests and responses, Parents what is asked of the parent, Modes the two sources of the mode,
--   Judgements the branches under drift, Handling `Handle` behind the decoding, and Dispatch the
--   rest and `handleStatusUpdate`. Proofs are in Preservation, Observed, Decisions and Consumption.
--   The API client, JSON, the digests and the label selectors are parameters. What the handler hands
--   to the tracker and to the senders is a list of effects in its outcome, not part of its world.
-- - Base: texts, decimal numbers, association lists, sorting and the tests that the code branches
--   on. Samples: concrete inputs.
--
-- Numbers: an int64 is a value of ℤ; no modelled operation computes with it but the parser, which
-- keeps its range. The printers of numbers run on fuel, 20 digits in base 10 and
-- 13 in base 36, which is enough for 64 bits.
-- Times are natural numbers.
--
-- Not modelled: the set-up of the example control plane, logging, metrics, HTTP and TLS, flags, the
-- rendering of the terminal interfaces, and the generated deep copies.
pub mod Admission
pub mod Annotations
pub mod Approval
pub mod Backend
pub mod Base
pub mod Callback
pub mod Cli
pub mod Config
pub mod Controller
pub mod Drift
pub mod Kube
pub mod Plugin
pub mod Policy
pub mod Samples
pub mod Trace
