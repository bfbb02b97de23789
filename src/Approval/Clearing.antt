-- ===== src/Approval/Clearing.antt =====
-- pkg/approval/actions.go: snoozes, freezes, and the removal of approvals and rejections.
use kausality.Base.{
  String, ℕ, ◌+◌, eqb, not, ◌==◌, ◌||◌, if◌then◌else◌, List, length, keep, some, insert, delete,
  Result, ok, wrap, ◌>>=◌,
}
use kausality.Annotations.{
  approvals_annotation, rejections_annotation, freeze_annotation, snooze_annotation,
}
use kausality.Kube.{Client, Codec, ObjectRef, entry}
use kausality.Approval.Types.{Approval, ChildRef, matches, parse_approvals}
use kausality.Approval.Rejections
use kausality.Approval.Rejections.{Rejection, parse_rejections}
use kausality.Approval.Notices.{Freeze, Snooze, marshal_freeze, marshal_snooze}
use kausality.Approval.Actions.{
  annotations_of, fetch_parent, set_annotations, update_approvals, update_rejections,
}

module _ (c : Client) where
  open c use {World}

  -- `now` is the reading of the clock.
  unfoldable pub apply_snooze :
      Codec Snooze → World → ObjectRef → ℕ → ℕ → String → String → Result World
  unfolding fetch_parent set_annotations
  apply_snooze json w parent now duration user message = do
    o ← fetch_parent c w parent
    text ← wrap "failed to marshal snooze: " (
        marshal_snooze json
          (some (record { expiry = now + duration; user = user; message = message })))
    set_annotations c "failed to update parent: " w o
        (insert snooze_annotation text (annotations_of o))

  unfoldable pub apply_freeze :
      Codec Freeze → World → ObjectRef → ℕ → String → String → Result World
  unfolding fetch_parent set_annotations
  apply_freeze json w parent now user message = do
    o ← fetch_parent c w parent
    text ←
        wrap "failed to marshal freeze: "
          (marshal_freeze json (some (record { user = user; message = message; at = now })))
    set_annotations c "failed to update parent: " w o
        (insert freeze_annotation text (annotations_of o))

  -- `ClearFreeze` and `ClearSnooze`, which differ in the key.
  unfoldable pub clear : String → World → ObjectRef → Result World
  unfolding fetch_parent set_annotations
  clear key w parent = do
    o ← fetch_parent c w parent
    if entry o.annotations key == ""
        then ok w
        else set_annotations c "failed to update parent: " w o (delete key (annotations_of o))

  unfoldable pub clear_freeze : World → ObjectRef → Result World
  unfolding clear
  clear_freeze w parent = clear freeze_annotation w parent

  unfoldable pub clear_snooze : World → ObjectRef → Result World
  unfolding clear
  clear_snooze w parent = clear snooze_annotation w parent

  unfoldable pub remove_approval :
      Codec (List Approval) → World → ObjectRef → ChildRef → Result World
  unfolding fetch_parent update_approvals
  remove_approval json w parent child = do
    o ← fetch_parent c w parent
    approvals ←
        wrap "failed to parse existing approvals: "
          (parse_approvals json (entry o.annotations approvals_annotation))
    let filtered = keep (λ a. not (matches a child)) approvals
    if entry o.annotations approvals_annotation == "" || eqb (length filtered) (length approvals)
        then ok w
        else update_approvals c json w o (annotations_of o) filtered

  unfoldable pub remove_rejection :
      Codec (List Rejection) → World → ObjectRef → ChildRef → Result World
  unfolding fetch_parent update_rejections
  remove_rejection json w parent child = do
    o ← fetch_parent c w parent
    rejections ←
        wrap "failed to parse existing rejections: "
          (parse_rejections json (entry o.annotations rejections_annotation))
    let filtered = keep (λ r. not (Rejections.matches r child)) rejections
    if entry o.annotations rejections_annotation == "" || eqb (length filtered) (length rejections)
        then ok w
        else update_rejections c json w o (annotations_of o) filtered
