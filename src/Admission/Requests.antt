-- ===== src/Admission/Requests.antt =====
-- pkg/admission/handler.go and audit.go: requests and responses, the handler's configuration, and
-- what it reads from a request.
use Prim.Native.String.{◌++◌ as append_text}
use kausality.Base.{
  String, ℕ, Bool, true, false, not, ◌&&◌, ◌==◌, if◌then◌else◌, List, [], ◌++◌, is_empty, Option,
  none, some, Dict, Result, ok, err, wrap, ◌>>=◌,
}
use kausality.Kube.{Client, Codec, Object}
use kausality.Approval.Types.{Approval}
use kausality.Approval.Rejections.{Rejection}
use kausality.Approval.Notices.{Freeze, Snooze}
use kausality.Drift.State.{InitializationDetector}
use kausality.Trace.Types.{Trace}
use kausality.Callback.Reports.{DriftReport}

pub data Operation : Type 0 where
  create update delete connect : Operation

-- The raw objects are JSON texts, and "" where the request has none.
pub record Request : Type 0 where
  pub operation : Operation
  pub sub_resource : String
  pub namespace : String
  pub uid : String
  pub username : String
  pub user_uid : String
  pub object : String
  pub old_object : String

-- What a response asks to be patched: nothing, the difference to a whole object, the annotations
-- as a whole, or the two entries, each with the operation "add" or "replace".
pub data Patch : Type 0 where
  no_patch : Patch
  rewritten : String → Patch
  annotations_added : String → String → Patch
  entries_set : String → String → String → String → Patch

pub record Response : Type 0 where
  pub allowed : Bool
  pub message : String
  pub warnings : List String
  pub audit : Dict String
  pub patch : Patch

-- Work that the handler hands to the tracker and to the senders. Its result is not part of the world
-- of an outcome: `phase_recorded` is RecordPhaseAsync, which changes the phase annotation after the
-- response; `controller_recorded` is RecordControllerAsync, whose delay is 0, so that it changes the
-- parent's annotations before the response (Controller/Recording); `report_sent` is SendAsync.
pub data Effect : Type 0 where
  phase_recorded : Object → String → Effect
  controller_recorded : Object → String → Effect
  report_sent : DriftReport → Effect

-- The decoder of apimachinery, and encoding/json on unstructured objects: `decode` reads an object,
-- `spec` encodes its spec, `none` for a nil one, `write` encodes the object with new annotations,
-- and `diff` encodes the pair of the two specs.
pub record Objects : Type 0 where
  pub decode : String → Result Object
  pub spec : String → Option (Result String)
  pub write : String → Dict String → Result String
  pub diff : String → String → Result String

-- The handler's fields. `mode` is `resolveMode` on the object, the namespace's labels, and the
-- annotations of the object and of the namespace.
pub record Handler : Type 1 where
  pub client : Client
  pub objects : Objects
  pub approvals_json : Codec (List Approval)
  pub rejections_json : Codec (List Rejection)
  pub freeze_json : Codec Freeze
  pub freeze_text : Freeze → String
  pub snooze_json : Codec Snooze
  pub parse_time : String → Result ℕ
  pub trace_json : Codec Trace
  pub hash_username : String → String
  pub report_digest : String → String
  pub detection_order : List InitializationDetector
  pub sender_enabled : Bool
  pub mode : Object → Dict String → Dict String → Dict String → String

abbrev pub allowed_with : String → Response
allowed_with message = record {
  allowed = true;
  message = message;
  warnings = [];
  audit = [];
  patch = no_patch;
}

abbrev pub refused_with : String → Response
refused_with message = record (allowed_with message) { allowed = false }

abbrev pub error_text : String → String → String
error_text what e = append_text what e

-- `auditDecision`
unfoldable pub audit_decision : List String → String
audit_decision warnings = if not (is_empty warnings) then "allowed-with-warning" else "allowed"

unfoldable pub with_warnings : Response → List String → Response
with_warnings r warnings =
    if not (is_empty warnings) then record r { warnings = r.warnings ++ warnings } else r

unfoldable pub with_audit_annotations : Response → Dict String → Response
with_audit_annotations r audit = if not (is_empty audit) then record r { audit = audit } else r

-- `parseObject`
unfoldable pub parse_object : Objects → Request → Result Object
parse_object objects req =
    let raw : String = elim req.operation [
      | delete ↦ req.old_object
      | create ↦ req.object
      | update ↦ req.object
      | connect ↦ req.object
    ] in
    if raw == ""
    then err "no object data in request"
    else (wrap "failed to decode object: " (objects.decode raw) >>= λ o. ok (
        if (o.namespace == "") && not (req.namespace == "")
        then record o { namespace = req.namespace }
        else o))

-- `equalSpec`
unfoldable pub equal_spec : Option (Result String) → Option (Result String) → Bool
equal_spec none none = true
equal_spec none (some b) = false
equal_spec (some a) none = false
equal_spec (some (err e)) (some b) = false
equal_spec (some (ok a)) (some (err e)) = false
equal_spec (some (ok a)) (some (ok b)) = a == b

-- `hasSpecChanged`
unfoldable pub has_spec_changed : Objects → Request → Result Bool
unfolding equal_spec
has_spec_changed objects req =
    let compared = wrap "failed to decode old object: " (objects.decode req.old_object) >>= λ _.
    (wrap "failed to decode new object: " (objects.decode req.object) >>= λ _.
    ok (not (equal_spec (objects.spec req.old_object) (objects.spec req.object)))) in
    if req.old_object == "" then ok true else if req.object == "" then ok true else compared
