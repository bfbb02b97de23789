-- ===== src/Admission/Decisions.antt =====
-- pkg/admission/handler.go: which mutations are refused, and what a mutation changes.
use kausality.Base.{Bool, Option}
use kausality.Kube.{Object}
use kausality.Controller.Hashes.{user_identifier}
use kausality.Drift.State.{DriftResult}
use kausality.Drift.Detector.{detect}
use kausality.Admission.Requests.{Request, Handler}
use kausality.Admission.Parents.{ApprovalCheckResult, check_approvals}
use kausality.Admission.Handling.{updaters_of}

module _ (h : Handler) where
  open h use {client, hash_username, detection_order, trace_json}

  -- What the detector and the approvals say of a mutation, as the handler asks them.
  abbrev pub drift_of : client.World → Request → Object → DriftResult
  drift_of w req o =
      let user_id = user_identifier req.username req.user_uid in
      detect client hash_username detection_order w o user_id
        (updaters_of h req (hash_username user_id))

  abbrev pub checked_of : client.World → Request → Object → ApprovalCheckResult
  checked_of w req o = check_approvals h w (drift_of w req o) o
