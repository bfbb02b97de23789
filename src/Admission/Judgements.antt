-- ===== src/Admission/Judgements.antt =====
-- pkg/admission/handler.go: the reports that the handler sends, and what it makes of drift.
use Prim.Native.String.{◌++◌}
use kausality.Base.{
  String, ℕ, ℤ, pos, Bool, false, not, ◌&&◌, ◌==◌, if◌then◌else◌, List, [], ◌∷◌, Option, none, some,
  ok, err, is_some,
}
use kausality.Kube.{Object}
use kausality.Drift.State.{DriftResult, ParentState, phase_text}
use kausality.Callback.Reports.{
  DriftReport, DriftReportPhase, detected, resolved, ObjectReference, generate_drift_id,
  generate_resolution_id,
}
use kausality.Admission.Requests.{
  Operation, create, update, delete, connect, Request, Handler, Objects, Effect, report_sent,
}
use kausality.Admission.Parents.{check_approvals, consume_approval, is_parent_snoozed}

abbrev pub operation_text : Operation → String
operation_text create = "CREATE"
operation_text update = "UPDATE"
operation_text delete = "DELETE"
operation_text connect = "CONNECT"

-- `computeSpecDiff`
unfoldable pub compute_spec_diff : Objects → Request → String
compute_spec_diff objects req =
    let compared = elim (objects.decode req.old_object) as (λ _. String) [
      | err e ↦ req.object
      | ok old ↦ elim (objects.decode req.object) [
        | err e ↦ req.object
        | ok new ↦ elim (objects.diff req.old_object req.object) [
          | err e ↦ req.object
          | ok diff ↦ diff
        ]
      ]
    ] in
    elim req.operation [
      | update ↦ compared
      | create ↦ req.object
      | delete ↦ req.object
      | connect ↦ req.object
    ]

-- What a judgement of drift leaves: a refusal, the cluster, the work that was started, the
-- warnings, and the resolution for the audit, "" for none.
pub record Judgement (W : Type 0) : Type 0 where
  pub denied : Option String
  pub world : W
  pub effects : List Effect
  pub warnings : List String
  pub resolution : String

-- The generation and the observed generation of the parent's state, 0 without one.
abbrev generation_of : Option ParentState → ℤ
generation_of none = pos 0
generation_of (some state) = state.generation

abbrev observed_of : Option ParentState → ℤ
observed_of none = pos 0
observed_of (some state) = state.observed_generation

abbrev pub would_block : String → String
would_block msg = "[kausality] " ++ (msg ++ " (would be blocked in enforce mode)")

module _ (h : Handler) where
  open h use {client, objects, report_digest, sender_enabled}

  unfoldable pub build_drift_report :
      Request → Object → DriftResult → DriftReportPhase → Option DriftReport
  unfolding compute_spec_diff generate_drift_id generate_resolution_id phase_text
  build_drift_report req o drift phase = elim drift.parent_ref [
    | none ↦ none
    | some ref ↦
        let parent : ObjectReference = record {
          api_version = ref.api_version;
          kind = ref.kind;
          namespace = ref.namespace;
          name = ref.name;
          uid = "";
          generation = generation_of drift.parent_state;
          observed_generation = observed_of drift.parent_state;
          lifecycle_phase = phase_text drift.lifecycle_phase;
        } in
        let child : ObjectReference = record {
          api_version = o.api_version;
          kind = o.kind;
          namespace = o.namespace;
          name = o.name;
          uid = o.uid;
          generation = o.generation;
          observed_generation = pos 0;
          lifecycle_phase = "";
        } in
        some (record {
          id = elim phase [
            | detected ↦
                generate_drift_id report_digest parent child (compute_spec_diff objects req)
            | resolved ↦ generate_resolution_id report_digest parent child
          ];
          phase = phase;
          parent = parent;
          child = child;
          old_object =
              if (operation_text req.operation == "UPDATE") && not (req.old_object == "")
              then some req.old_object
              else none;
          new_object = req.object;
          request = record {
            user = req.username;
            uid = req.uid;
            operation = operation_text req.operation;
          };
        })
  ]

  -- `sendDriftCallback`: none without a sender and under a snooze of the parent.
  unfoldable pub send_drift_callback :
      ℕ → Request → Object → DriftResult → Option Object → DriftReportPhase → List Effect
  unfolding build_drift_report is_parent_snoozed
  send_drift_callback now req o drift parent phase =
      let snoozed = elim parent as (λ _. Bool) [
        | none ↦ false
        | some p ↦ is_some (is_parent_snoozed h p now)
      ] in
      let sent = elim (build_drift_report req o drift phase) as (λ _. List Effect) [
        | none ↦ []
        | some report ↦ report_sent report ∷ []
      ] in
      if not sender_enabled then [] else if snoozed then [] else sent

  -- The branches of `Handle` under drift; `enforce` says that the mode is "enforce".
  unfoldable pub judge_drift :
      client.World → ℕ → Request → Object → DriftResult → Bool → Judgement client.World
  unfolding check_approvals consume_approval send_drift_callback
  judge_drift w now req o drift enforce =
      let checked = check_approvals h w drift o in
      let reject_msg : String = "drift rejected: " ++ checked.result.reason in
      let drift_msg : String = "drift detected: no approval found for this mutation" in
      if checked.result.rejected
      then record {
        denied = if enforce then some reject_msg else none;
        world = w;
        effects = [];
        warnings = if enforce then [] else would_block reject_msg ∷ [];
        resolution = "rejected";
      }
      else if checked.result.approved
      then record {
        denied = none;
        world = consume_approval h w checked;
        effects = send_drift_callback now req o drift checked.parent resolved;
        warnings = [];
        resolution = "approved";
      }
      else record {
        denied = if enforce then some drift_msg else none;
        world = w;
        effects = send_drift_callback now req o drift checked.parent detected;
        warnings = if enforce then [] else would_block drift_msg ∷ [];
        resolution = "unresolved";
      }

  unfoldable pub judge :
      client.World → ℕ → Request → Object → DriftResult → Bool → Judgement client.World
  unfolding judge_drift
  judge w now req o drift enforce =
      let judged = judge_drift w now req o drift enforce in
      if drift.drift_detected
      then judged
      else record { denied = none; world = w; effects = []; warnings = []; resolution = "" }
