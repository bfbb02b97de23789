-- ===== src/Approval/Actions.antt =====
-- pkg/approval/actions.go: the changes that an operator makes to a parent's annotations. An action
-- returns the cluster after it, or its error; an action that fails leaves the cluster unchanged.
use kausality.Base.{
  String, ℤ, pos, ◌==◌, if◌then◌else◌, List, [], ◌∷◌, ◌++◌, is_empty, Option, none, some, option_or,
  Dict, insert, delete, Result, wrap, ◌>>=◌,
}
use mathlib.Core.Option
use kausality.Annotations.{approval_mode_always, approvals_annotation, rejections_annotation}
use kausality.Kube.{Client, Codec, Object, ObjectRef, entry}
use kausality.Approval.Types.{Approval, ChildRef, matches, or_once, parse_approvals}
use kausality.Approval.Rejections
use kausality.Approval.Rejections.{Rejection, parse_rejections}

-- The generation that an action writes: none for the mode "always".
unfoldable pub granted_generation : String → ℤ → ℤ → ℤ
granted_generation mode old generation = if mode == approval_mode_always then old else generation

-- The loop of `ApplyApproval`: the first entry that matches the child takes the mode.
unfoldable pub regrant : ChildRef → String → ℤ → List Approval → Option (List Approval)
unfolding granted_generation
regrant child mode generation [] = none
regrant child mode generation (a ∷ more) =
    let later = regrant child mode generation more in
    let a' = record a {
      mode = mode;
      generation = granted_generation mode a.generation generation;
    } in
    if matches a child then some (a' ∷ more) else Option.map (◌∷◌ a) later

unfoldable pub grant : ChildRef → String → ℤ → List Approval → List Approval
unfolding regrant
grant child mode generation approvals =
    let added : Approval = record {
      api_version = child.api_version;
      kind = child.kind;
      name = child.name;
      generation = granted_generation mode (pos 0) generation;
      mode = mode;
    } in
    option_or (regrant child mode generation approvals) (approvals ++ added ∷ [])

-- The loop of `ApplyRejection`.
unfoldable pub rereject : ChildRef → String → ℤ → List Rejection → Option (List Rejection)
rereject child reason generation [] = none
rereject child reason generation (r ∷ more) =
    let later = rereject child reason generation more in
    if Rejections.matches r child
    then some (record r { generation = generation; reason = reason } ∷ more)
    else Option.map (◌∷◌ r) later

unfoldable pub reject : ChildRef → String → ℤ → List Rejection → List Rejection
unfolding rereject
reject child reason generation rejections =
    let added : Rejection = record {
      api_version = child.api_version;
      kind = child.kind;
      name = child.name;
      generation = generation;
      reason = reason;
    } in
    option_or (rereject child reason generation rejections) (rejections ++ added ∷ [])

unfoldable pub or_default : String → String
or_default reason = if reason == "" then "rejected via webhook" else reason

-- A nil map is replaced by an empty one.
abbrev pub annotations_of : Object → Dict String
annotations_of o = option_or o.annotations []

module _ (c : Client) where
  open c use {World, parse_group_version, get, update}

  unfoldable pub fetch_object : World → ObjectRef → Result Object
  fetch_object w ref = do
    _ ← wrap "invalid API version: " (parse_group_version ref.api_version)
    get w ref

  unfoldable pub fetch_parent : World → ObjectRef → Result Object
  unfolding fetch_object
  fetch_parent w ref = wrap "failed to fetch parent: " (fetch_object w ref)

  -- `obj.SetAnnotations(m)` and `client.Update`.
  unfoldable pub set_annotations : String → World → Object → Dict String → Result World
  set_annotations what w o m = wrap what (update w (record o { annotations = some m }))

  unfoldable pub update_approvals :
      Codec (List Approval) → World → Object → Dict String → List Approval → Result World
  unfolding set_annotations
  update_approvals json w o m approvals =
      if is_empty approvals
      then set_annotations "failed to update object: " w o (delete approvals_annotation m)
      else (do
        text ← wrap "failed to marshal approvals: " (json.marshal approvals)
        set_annotations "failed to update object: " w o (insert approvals_annotation text m))

  unfoldable pub update_rejections :
      Codec (List Rejection) → World → Object → Dict String → List Rejection → Result World
  unfolding set_annotations
  update_rejections json w o m rejections =
      if is_empty rejections
      then set_annotations "failed to update object: " w o (delete rejections_annotation m)
      else (do
        text ← wrap "failed to marshal rejections: " (json.marshal rejections)
        set_annotations "failed to update object: " w o (insert rejections_annotation text m))

  unfoldable pub apply_approval :
      Codec (List Approval) → World → ObjectRef → ChildRef → String → Result World
  unfolding fetch_parent update_approvals grant
  apply_approval json w parent child mode = do
    o ← fetch_parent w parent
    approvals ←
        wrap "failed to parse existing approvals: "
          (parse_approvals json (entry (some (annotations_of o)) approvals_annotation))
    update_approvals json w o (annotations_of o) (grant child (or_once mode) o.generation approvals)

  unfoldable pub apply_rejection :
      Codec (List Rejection) → World → ObjectRef → ChildRef → String → Result World
  unfolding fetch_parent update_rejections reject
  apply_rejection json w parent child reason = do
    o ← fetch_parent w parent
    rejections ←
        wrap "failed to parse existing rejections: "
          (parse_rejections json (entry (some (annotations_of o)) rejections_annotation))
    update_rejections json w o (annotations_of o)
        (reject child (or_default reason) o.generation rejections)
