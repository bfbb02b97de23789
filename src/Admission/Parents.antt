-- ===== src/Admission/Parents.antt =====
-- pkg/admission/handler.go: what the handler asks of the parent. `h` is the handler and `w` the
-- cluster.
use Prim.Native.String.{◌++◌}
use kausality.Base.{
  String, ℕ, not, ◌&&◌, ◌==◌, if◌then◌else◌, [], is_empty, Option, none, some, Dict, Result, ok,
  err, wrap, ◌>>=◌, insert, delete, option_or,
}
use kausality.Annotations.{
  approvals_annotation, freeze_annotation, snooze_annotation, approval_mode_once,
}
use kausality.Kube.{Object, entry}
use kausality.Approval.Types.{Approval, parse_approvals, marshal_approvals, or_once}
use kausality.Approval.Notices.{Freeze, Snooze, parse_freeze, parse_snooze, is_active}
use kausality.Approval.Checker.{CheckResult, neither, check}
use kausality.Approval.Pruner.{prune}
use kausality.Drift.State.{ParentRef, DriftResult}
use kausality.Admission.Requests.{Handler}

-- The handler's `approvalCheckResult`; the parent's generation is that of the parent.
pub record ApprovalCheckResult : Type 0 where
  pub result : CheckResult
  pub parent : Option Object

abbrev pub freeze_message : Handler → Freeze → String
freeze_message h freeze = "mutation blocked: parent " ++ h.freeze_text freeze

module _ (h : Handler) where
  open h use {client, approvals_json, rejections_json, freeze_json, snooze_json, parse_time}

  -- `fetchParent`: the child's namespace stands in for a missing one.
  unfoldable pub fetch_parent : client.World → ParentRef → String → Result Object
  fetch_parent w ref child_namespace =
      wrap "invalid parent API version: " (client.parse_group_version ref.api_version) >>= λ _.
      client.get w (record {
        api_version = ref.api_version;
        kind = ref.kind;
        namespace =
            if (ref.namespace == "") && not (child_namespace == "")
            then child_namespace
            else ref.namespace;
        name = ref.name;
      })

  -- The freeze that the text of the annotation sets; a text that cannot be parsed freezes too.
  unfoldable pub freeze_of : String → Option Freeze
  unfolding parse_freeze
  freeze_of value =
      let unnamed : Freeze = record { user = ""; message = ""; at = 0 } in
      let parsed = elim (parse_freeze freeze_json value) as (λ _. Option Freeze) [
        | err e ↦ some unnamed
        | ok freeze ↦ some (option_or freeze unnamed)
      ] in
      if value == "" then none else if value == "false" then none else parsed

  -- `checkFreeze`: `none` stands for not frozen.
  unfoldable pub check_freeze : client.World → ParentRef → String → Option Freeze
  unfolding fetch_parent freeze_of
  check_freeze w ref child_namespace = elim (fetch_parent w ref child_namespace) [
    | err e ↦ none
    | ok parent ↦ freeze_of (entry parent.annotations freeze_annotation)
  ]

  -- `isParentSnoozed`
  unfoldable pub is_parent_snoozed : Object → ℕ → Option Snooze
  unfolding parse_snooze is_active
  is_parent_snoozed parent now =
      let value = entry parent.annotations snooze_annotation in
      let found = elim (parse_snooze snooze_json parse_time value) as (λ _. Option Snooze) [
        | err e ↦ none
        | ok snooze ↦ if is_active snooze now then snooze else none
      ] in
      if value == "" then none else found

  -- `checkApprovals`
  unfoldable pub check_approvals : client.World → DriftResult → Object → ApprovalCheckResult
  unfolding fetch_parent check
  check_approvals w drift o = elim drift.parent_ref [
    | none ↦ record { result = neither "no parent to check approvals on"; parent = none }
    | some ref ↦ elim (fetch_parent w ref o.namespace) [
      | err e ↦ record { result = neither ("failed to fetch parent: " ++ e); parent = none }
      | ok parent ↦ record {
        result =
            check approvals_json rejections_json parent
              (record { api_version = o.api_version; kind = o.kind; name = o.name })
              parent.generation;
        parent = some parent;
      }
    ]
  ]

  -- The parent's annotations after the pruning, or `none` where the source leaves the parent alone.
  unfoldable pub pruned_annotations : Object → Approval → Option (Dict String)
  unfolding or_once parse_approvals prune marshal_approvals
  pruned_annotations parent approval =
      let text = entry parent.annotations approvals_annotation in
      let annotations = option_or parent.annotations [] in
      if not (or_once approval.mode == approval_mode_once)
      then none
      else if text == ""
      then none
      else elim (parse_approvals approvals_json text) [
        | err e ↦ none
        | ok approvals ↦
            let result = prune approvals (some approval) parent.generation in
            if not result.changed
            then none
            else if is_empty result.approvals
            then some (delete approvals_annotation annotations)
            else elim (marshal_approvals approvals_json result.approvals) [
              | err e ↦ none
              | ok written ↦ some (insert approvals_annotation written annotations)
            ]
      ]

  -- `consumeApproval`: an update that fails leaves the cluster as it was.
  unfoldable pub consume_approval : client.World → ApprovalCheckResult → client.World
  unfolding pruned_annotations
  consume_approval w checked = elim checked.parent [
    | none ↦ w
    | some parent ↦ elim checked.result.matched_approval [
      | none ↦ w
      | some approval ↦ elim (pruned_annotations parent approval) [
        | none ↦ w
        | some annotations ↦
            elim (client.update w (record parent { annotations = some annotations })) [
              | err e ↦ w
              | ok w' ↦ w'
            ]
      ]
    ]
  ]
