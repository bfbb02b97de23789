-- ===== src/Admission/Handling.antt =====
-- pkg/admission/handler.go: `Handle` behind the decoding of the object. `now` is the clock's reading.
use kausality.Base.{
  String, ℕ, Bool, true, false, not, ◌==◌, if◌then◌else◌, List, [], ◌∷◌, ◌++◌, is_empty, Option,
  none, some, option_or, is_some, Dict, insert, lookup, keep, Result, ok, err,
}
use kausality.Annotations.{trace_annotation, updaters_annotation, phase_value_initialized}
use kausality.Kube.{Object, entry}
use kausality.Controller.Hashes.{user_identifier, contains_hash, add_hash}
use kausality.Drift.State.{
  ParentState, ParentRef, unset, initializing, initialized, deleting, phase_text, DriftResult,
}
use kausality.Drift.Detector.{detect, parse_updater_hashes}
use kausality.Trace.Types.{trace_text}
use kausality.Trace.Propagator.{PropagationResult, propagate}
use kausality.Policy.Types.{mode_enforce}
use kausality.Approval.Notices.{Freeze}
use kausality.Admission.Annotations.{is_kausality_annotation}
use kausality.Admission.Requests.{
  Operation, create, update, delete, connect, Request, Response, Patch, annotations_added,
  entries_set, Effect, phase_recorded, Handler, allowed_with, refused_with, audit_decision,
  with_warnings, with_audit_annotations,
}
use kausality.Admission.Parents.{fetch_parent, check_freeze, freeze_message}
use kausality.Admission.Judgements.{judge}

-- The response, the cluster behind it, and the work that was started.
pub record Outcome (W : Type 0) : Type 0 where
  pub response : Response
  pub world : W
  pub effects : List Effect

abbrev pub unchanged : {W : Type 0} → W → Response → Outcome W
unchanged w r = record { response = r; world = w; effects = [] }

abbrev pub bool_text : Bool → String
bool_text true = "true"
bool_text false = "false"

-- The audit entries of the detection.
unfoldable pub drift_audit : DriftResult → Dict String
unfolding phase_text
drift_audit drift =
    let drifted : Dict String = insert "kausality.io/drift" (bool_text drift.drift_detected) [] in
    if phase_text drift.lifecycle_phase == ""
    then drifted
    else insert "kausality.io/lifecycle-phase" (phase_text drift.lifecycle_phase) drifted

abbrev pub patch_operation : Bool → String
patch_operation true = "replace"
patch_operation false = "add"

-- The patch on the annotations of the new object. `Handle` wipes a copy of them on CREATE.
unfoldable pub patch_for : Request → Object → String → String → Patch
unfolding add_hash is_kausality_annotation
patch_for req o new_trace user_hash =
    let original : Dict String = option_or o.annotations [] in
    let wiped : Dict String = keep (λ e. not (is_kausality_annotation e.0)) original in
    let annotations = elim req.operation as (λ _. Dict String) [
      | create ↦ wiped
      | update ↦ original
      | delete ↦ original
      | connect ↦ original
    ] in
    let new_updaters = add_hash (entry (some annotations) updaters_annotation) user_hash in
    let operation = λ (key : String). patch_operation (is_some (lookup key original)) in
    if is_empty original
    then annotations_added new_trace new_updaters
    else entries_set (operation trace_annotation) new_trace (operation updaters_annotation)
        new_updaters

-- DELETE has no new object that could be patched.
unfoldable pub by_operation : Operation → Response → Response → Response
by_operation delete plain patched = plain
by_operation create plain patched = patched
by_operation update plain patched = patched
by_operation connect plain patched = patched

-- A refusal with its message, or the response of a mutation that is let through.
unfoldable pub answer : Option String → Dict String → Response → Response
unfolding with_audit_annotations
answer (some message) audit passed =
    with_audit_annotations (refused_with message) (insert "kausality.io/decision" "denied" audit)
answer none audit passed = passed

module _ (h : Handler) where
  open h use {client, objects, trace_json, hash_username, detection_order, mode}

  -- The hashes of the child's updaters, and the user's behind them.
  unfoldable pub updaters_of : Request → String → List String
  unfolding parse_updater_hashes contains_hash
  updaters_of req user_hash =
      let recorded = elim (objects.decode req.old_object) as (λ _. List String) [
        | err e ↦ []
        | ok old ↦ parse_updater_hashes old
      ] in
      let known = elim req.operation as (λ _. List String) [
        | update ↦ if req.old_object == "" then [] else recorded
        | create ↦ []
        | delete ↦ []
        | connect ↦ []
      ] in
      if contains_hash known user_hash then known else known ++ user_hash ∷ []

  -- A freeze of the parent, unless the parent is being deleted.
  unfoldable pub frozen : client.World → DriftResult → Object → Option Freeze
  unfolding check_freeze
  frozen w drift o = elim drift.parent_ref [
    | none ↦ none
    | some ref ↦ elim drift.lifecycle_phase as (λ _. Option Freeze) [
      | deleting ↦ none
      | unset ↦ check_freeze h w ref o.namespace
      | initializing ↦ check_freeze h w ref o.namespace
      | initialized ↦ check_freeze h w ref o.namespace
    ]
  ]

  -- The phase of a parent that became initialized is recorded.
  unfoldable pub phase_effects : client.World → DriftResult → Object → List Effect
  unfolding fetch_parent
  phase_effects w drift o =
      let found = λ (ref : ParentRef).
        elim (fetch_parent h w ref o.namespace) as (λ _. List Effect) [
          | err e ↦ []
          | ok parent ↦ phase_recorded parent phase_value_initialized ∷ []
        ] in
      let of_state = λ (ref : ParentRef) (state : ParentState).
        if not (state.phase_from_annotation == phase_value_initialized) then found ref else [] in
      elim drift.parent_ref [
        | none ↦ []
        | some ref ↦ elim drift.parent_state [
          | none ↦ []
          | some state ↦ elim drift.lifecycle_phase as (λ _. List Effect) [
            | initialized ↦ of_state ref state
            | unset ↦ []
            | initializing ↦ []
            | deleting ↦ []
          ]
        ]
      ]

  -- The labels and annotations of the object's namespace, empty where it cannot be read.
  unfoldable pub namespace_metadata : client.World → String → Dict String × Dict String
  namespace_metadata w namespace =
      let found =
        elim (client.get w
            (record { api_version = "v1"; kind = "Namespace"; namespace = ""; name = namespace }))
          as (λ _. Dict String × Dict String) [
            | err e ↦ ([], [])
            | ok ns ↦ (ns.labels, option_or ns.annotations [])
          ] in
      if namespace == "" then ([], []) else found

  unfoldable pub drift_mode : client.World → Object → String
  unfolding namespace_metadata
  drift_mode w o =
      let (namespace_labels, namespace_annotations) = namespace_metadata w o.namespace in
      mode o namespace_labels (option_or o.annotations []) namespace_annotations

  -- The response to a mutation that is let through, by the result of the propagation.
  unfoldable pub passed : Request → Object → DriftResult → Result PropagationResult → Response
  unfolding trace_text patch_for by_operation
  passed req o drift (err e) = allowed_with drift.reason
  passed req o drift (ok r) =
      let user_id = user_identifier req.username req.user_uid in
      by_operation req.operation (allowed_with drift.reason) (record (allowed_with "") {
        patch = patch_for req o (trace_text trace_json r.trace) (hash_username user_id);
      })

  unfoldable pub passed_audit : Dict String → List String → Result PropagationResult → Dict String
  unfolding trace_text audit_decision
  passed_audit audit warnings (err e) =
      insert "kausality.io/decision" (audit_decision warnings) audit
  passed_audit audit warnings (ok r) =
      insert "kausality.io/trace" (trace_text trace_json r.trace)
        (insert "kausality.io/decision" (audit_decision warnings) audit)

  -- The end of `Handle` on the result of the propagation.
  unfoldable pub finish_with :
      Request
      → Object
      → DriftResult
      → Dict String
      → List String
      → Result PropagationResult
      → Response
  unfolding passed passed_audit with_warnings with_audit_annotations
  finish_with req o drift audit warnings r =
      with_audit_annotations (with_warnings (passed req o drift r) warnings)
        (passed_audit audit warnings r)

  unfoldable pub finish :
      client.World
      → ℕ
      → Request
      → Object
      → DriftResult
      → List String
      → Dict String
      → List String
      → Response
  unfolding propagate finish_with
  finish w now req o drift updaters audit warnings = finish_with req o drift audit warnings (
      propagate client trace_json hash_username now w o (user_identifier req.username req.user_uid)
        updaters req.uid)

  -- The audit entries of a mutation behind the detection, the mode and the judgement.
  unfoldable pub resolved_audit : client.World → Object → DriftResult → String → Dict String
  unfolding drift_audit drift_mode
  resolved_audit w o drift resolution =
      let moded : Dict String = insert "kausality.io/mode" (drift_mode w o) (drift_audit drift) in
      if resolution == "" then moded else insert "kausality.io/drift-resolution" resolution moded

  -- `Handle` behind the check for a freeze.
  unfoldable pub handle_thawed :
      client.World → ℕ → Request → Object → DriftResult → List String → Outcome client.World
  unfolding phase_effects drift_mode judge finish resolved_audit answer
  handle_thawed w now req o drift updaters =
      let judged = judge h w now req o drift (drift_mode w o == mode_enforce) in
      let audit = resolved_audit w o drift judged.resolution in
      record {
        response =
            answer judged.denied audit
              (finish judged.world now req o drift updaters audit judged.warnings);
        world = judged.world;
        effects = phase_effects w drift o ++ judged.effects;
      }

  unfoldable pub handle_frozen :
      client.World
      → ℕ
      → Request
      → Object
      → DriftResult
      → List String
      → Option Freeze
      → Outcome client.World
  unfolding handle_thawed answer drift_audit
  handle_frozen w now req o drift updaters (some freeze) =
      unchanged w (answer (some (freeze_message h freeze)) (drift_audit drift) (allowed_with ""))
  handle_frozen w now req o drift updaters none = handle_thawed w now req o drift updaters

  -- `Handle` behind the decoding of the object.
  unfoldable pub handle_object : client.World → ℕ → Request → Object → Outcome client.World
  unfolding user_identifier updaters_of detect frozen handle_frozen
  handle_object w now req o =
      let user_id = user_identifier req.username req.user_uid in
      let updaters = updaters_of req (hash_username user_id) in
      let drift = detect client hash_username detection_order w o user_id updaters in
      handle_frozen w now req o drift updaters (frozen w drift o)
