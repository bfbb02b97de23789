-- ===== src/Samples/Requests.antt =====
-- The theorems on the admission handler, at a child of the sample parent in enforce mode.
use kausality.Base.{
  arith, String, ℕ, pos, true, ◌==◌, if◌then◌else◌, List, [], ◌∷◌, some, is_some, lookup, insert,
  Result, ok, err, ◌≡◌, ◌≢◌, ◌↔◌, refl,
}
use kausality.Kube.{Object, Codec}
use kausality.Controller.Hashes.{contains_hash}
use kausality.Controller.Username.{hash_username, hash_username-IsClean}
use kausality.Approval.Types.{Approval}
use kausality.Approval.Rejections.{Rejection}
use kausality.Approval.Notices.{Freeze, Snooze}
use kausality.Drift.State.{default_detection_order}
use kausality.Drift.Lifecycle.{detect_phase}
use kausality.Drift.Resolver.{extract_parent_state, status_observed_generation}
use kausality.Drift.Detector.{detect_at}
use kausality.Admission.Annotations.{compute_annotations_for_status_update}
use kausality.Admission.Observed.{status_update-detect_at}
use kausality.Admission.Requests.{update, Request, Objects, Handler}
use kausality.Admission.Parents.{freeze_of}
use kausality.Admission.Consumption.{freeze_of_iff}
use kausality.Samples.Fixtures.{parent, cluster, owner, child_object, table}

-- Every text is an object: "old" the child with an annotation, and any other one the child.
abbrev old_child : Object
old_child = record child_object { annotations = some (("kausality.io/trace", "[]") ∷ []) }

abbrev decode_any : String → Result Object
decode_any s = if s == "old" then ok old_child else ok child_object

abbrev objects : Objects
objects = record {
  decode = decode_any;
  spec = λ s. some (ok "spec");
  write = λ s m. ok "modified";
  diff = λ s t. ok "diff";
}

abbrev no_approvals : Codec (List Approval)
no_approvals = table "[]" []

abbrev no_rejections : Codec (List Rejection)
no_rejections = table "[]" []

abbrev a_freeze : Freeze
a_freeze = record { user = "ops"; message = ""; at = 0 }

abbrev a_snooze : Snooze
a_snooze = record { expiry = 0; user = "ops"; message = "" }

abbrev pub webhook : Handler
webhook = record {
  client = cluster;
  objects = objects;
  approvals_json = no_approvals;
  rejections_json = no_rejections;
  freeze_json = table "freeze" a_freeze;
  freeze_text = λ f. f.user;
  snooze_json = table "snooze" a_snooze;
  parse_time = λ s. err "no time";
  trace_json = table "[]" [];
  hash_username = λ s. s;
  report_digest = λ s. s;
  detection_order = default_detection_order;
  sender_enabled = true;
  mode = λ o a b c. "enforce";
}

abbrev pub request : Request
request = record {
  operation = update;
  sub_resource = "";
  namespace = "shop";
  uid = "r-1";
  username = "c2";
  user_uid = "";
  object = "new";
  old_object = "old";
}

freeze_of_iff_example :
    (is_some (freeze_of webhook "{") ≡ true)
    ↔ (◌≢◌ {A = String} "{" "" × ◌≢◌ {A = String} "{" "false")
freeze_of_iff_example = freeze_of_iff webhook "{"

abbrev digest : String → ℕ
digest s = 123456789

-- The parent behind a status update at generation 4 by the user "c2", initialized.
abbrev updated : Object
updated = record parent {
  annotations = some (
      compute_annotations_for_status_update (("kausality.io/phase", "initialized") ∷ []) []
        (hash_username digest "c2") (pos 4));
}

status_update-detect_at_example :
    let state = extract_parent_state updated owner in
    (state.has_observed_generation ≡ true)
    × (state.observed_generation ≡ pos 4)
    × (contains_hash state.controllers (hash_username digest "c2") ≡ true)
    × (((detect_at
            (hash_username digest)
            default_detection_order
            state
            "c2"
            (hash_username digest "c2" ∷ [])).drift_detected
          ≡ true)
        ↔ (pos 4 ≡ pos 4))
unfolding detect_phase extract_parent_state compute_annotations_for_status_update
    status_observed_generation contains_hash lookup insert hash_username
status_update-detect_at_example =
    status_update-detect_at (("kausality.io/phase", "initialized") ∷ []) [] (hash_username digest)
      "c2" 4 updated owner default_detection_order (hash_username digest "c2" ∷ [])
      (hash_username-IsClean digest "c2").1 (ground arith) refl refl refl refl
