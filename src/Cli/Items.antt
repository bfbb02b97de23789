-- ===== src/Cli/Items.antt =====
-- cmd/kausality-cli/pkg/cli/client.go and types.go: the entries that are listed, and the actions on
-- one. The answer of the API server to the list is an argument, and so is the time.
use Prim.Native.String.{◌++◌}
use kausality.Base.{String, ℕ, ◌==◌, if◌then◌else◌, List, [], ◌∷◌, map, Result, ok, err}
use mathlib.Core.List.{◌++◌ as append}
use kausality.Annotations.{
  approvals_annotation, approval_mode_once, approval_mode_generation, approval_mode_always,
}
use kausality.Kube.{Object, ObjectRef, Client, Codec, entry}
use kausality.Approval.Types.{Approval, ChildRef, parse_approvals}
use kausality.Approval.Rejections.{Rejection}
use kausality.Approval.Notices.{Snooze}
use kausality.Approval.Clearing.{apply_snooze}
use kausality.Approval.Actions.{apply_approval, apply_rejection}

pub record DriftItem : Type 0 where
  pub id : String
  pub phase : String
  pub parent_api_version : String
  pub parent_kind : String
  pub parent_namespace : String
  pub parent_name : String
  pub child_api_version : String
  pub child_kind : String
  pub child_namespace : String
  pub child_name : String
  pub user : String
  pub operation : String
  pub detected_at : ℕ

unfoldable pub filter_value : DriftItem → String
filter_value d =
    d.parent_namespace
    ++ ("/" ++ (d.parent_name ++ (" " ++ (d.child_namespace ++ ("/" ++ d.child_name)))))

unfoldable pub title : DriftItem → String
title d = d.child_kind ++ ("/" ++ d.child_name)

unfoldable pub generate_item_id : Object → Approval → String
generate_item_id o a = o.namespace ++ ("/" ++ (o.name ++ ("/" ++ (a.kind ++ ("/" ++ a.name)))))

unfoldable pub item_of : ℕ → Object → Approval → DriftItem
unfolding generate_item_id
item_of now o a = record {
  id = generate_item_id o a;
  phase = "Detected";
  parent_api_version = o.api_version;
  parent_kind = o.kind;
  parent_namespace = o.namespace;
  parent_name = o.name;
  child_api_version = a.api_version;
  child_kind = a.kind;
  child_namespace = o.namespace;
  child_name = a.name;
  user = "unknown";
  operation = "UPDATE";
  detected_at = now;
}

-- The entries of one object; a text that cannot be parsed has none.
unfoldable pub items_of : Codec (List Approval) → ℕ → Object → List DriftItem
unfolding parse_approvals item_of
items_of json now o =
    let text = entry o.annotations approvals_annotation in
    if text == "" then [] else elim (parse_approvals json text) [
      | err e ↦ []
      | ok approvals ↦ map (item_of now o) approvals
    ]

unfoldable pub items_from : Codec (List Approval) → ℕ → List Object → List DriftItem
unfolding items_of
items_from json now [] = []
items_from json now (o ∷ objects) = append (items_of json now o) (items_from json now objects)

unfoldable pub list_drifts :
    Codec (List Approval) → ℕ → Result (List Object) → Result (List DriftItem)
unfolding items_from
list_drifts json now (err e) = err e
list_drifts json now (ok objects) = ok (items_from json now objects)

unfoldable pub parent_ref : DriftItem → ObjectRef
parent_ref item = record {
  api_version = item.parent_api_version;
  kind = item.parent_kind;
  namespace = item.parent_namespace;
  name = item.parent_name;
}

unfoldable pub child_ref : DriftItem → ChildRef
child_ref item = record {
  api_version = item.child_api_version;
  kind = item.child_kind;
  name = item.child_name;
}

module _ (c : Client) where
  unfoldable pub approve_once : Codec (List Approval) → c.World → DriftItem → Result c.World
  unfolding parent_ref child_ref
  approve_once json w item =
      apply_approval c json w (parent_ref item) (child_ref item) approval_mode_once

  unfoldable pub approve_generation : Codec (List Approval) → c.World → DriftItem → Result c.World
  unfolding parent_ref child_ref
  approve_generation json w item =
      apply_approval c json w (parent_ref item) (child_ref item) approval_mode_generation

  unfoldable pub ignore : Codec (List Approval) → c.World → DriftItem → Result c.World
  unfolding parent_ref child_ref
  ignore json w item =
      apply_approval c json w (parent_ref item) (child_ref item) approval_mode_always

  unfoldable pub freeze : Codec (List Rejection) → c.World → DriftItem → String → Result c.World
  unfolding parent_ref child_ref
  freeze json w item reason = apply_rejection c json w (parent_ref item) (child_ref item) reason

  unfoldable pub snooze :
      Codec Snooze → ℕ → c.World → DriftItem → ℕ → String → String → Result c.World
  unfolding parent_ref
  snooze json now w item duration user message =
      apply_snooze c json w (parent_ref item) now duration user message
