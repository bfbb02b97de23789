-- ===== src/Admission/Observed.antt =====
-- pkg/admission/handler.go and pkg/drift together: what a status update leaves on a parent, and what
-- the detector makes of the controller's next change.
use kausality.Base.{
  String, ℕ, ℤ, pos, ◌<◌, ◌^◌, true, false, List, [], ◌∷◌, is_empty, none, some, option_or, is_some,
  Dict, lookup, ◌≡◌, ◌↔◌, refl, ap, sym, inl, ◌∙◌,
}
use kausality.Base.Text.{IsClean}
use kausality.Base.Digits.{format_int, parse-format_pos}
use kausality.Annotations.{controllers_annotation, observed_generation_annotation}
use kausality.Kube.{Object, OwnerReference, entry}
use kausality.Controller.Hashes.{parse_hashes, contains_hash, add_hash}
use kausality.Controller.Capped.{add_hash-parse}
use kausality.Drift.State.{initialized, InitializationDetector}
use kausality.Drift.Lifecycle.{detect_phase}
use kausality.Drift.Resolver.{status_observed_generation, observed_generation, extract_parent_state}
use kausality.Drift.Detector.{is_controller_by_hash, detect_at}
use kausality.Drift.Verdicts.{is_controller_of_updater, detect_at-drift}
use kausality.Admission.Annotations.{compute_annotations_for_status_update}
use kausality.Admission.Preservation.{compute_annotations_for_status_update_lem}

-- The entries that a status update writes.
written_generation :
    (old new : Dict String) (hash : String) (g : ℤ)
    → lookup observed_generation_annotation (compute_annotations_for_status_update old new hash g)
      ≡ some (format_int g)
written_generation old new hash g =
    compute_annotations_for_status_update_lem old new hash g observed_generation_annotation

written_controllers :
    (old new : Dict String) (hash : String) (g : ℤ)
    → (before : String) × (entry
          (some (compute_annotations_for_status_update old new hash g))
          controllers_annotation
        ≡ add_hash before hash)
written_controllers old new hash g = (
  _,
  ap (λ x. option_or x "")
      (compute_annotations_for_status_update_lem old new hash g controllers_annotation),
)

contained_not_empty :
    (hashes : List String) (hash : String)
    → contains_hash hashes hash ≡ true
    → is_empty hashes ≡ false
unfolding contains_hash
contained_not_empty [] hash h = cc
contained_not_empty (x ∷ hashes) hash h = refl

-- A parent whose status shows no observed generation and whose annotations are those that a status
-- update at generation `n` by a user left: the detector sees `n` as observed, and the user's hash
-- among the controllers. So at that generation, once the parent is in its steady phase, a change of
-- a child by the same user, whose hash the handler puts among the updaters, is drift; and at any
-- other generation it is not.
pub status_update-detect_at :
    (old new : Dict String) (hash_username : String → String) (username : String) (n : ℕ)
    (parent : Object) (owner : OwnerReference) (order : List InitializationDetector)
    (updaters : List String)
    → IsClean (hash_username username)
    → n < 2 ^ 63
    → parent.annotations
      ≡ some (compute_annotations_for_status_update old new (hash_username username) (pos n))
    → status_observed_generation parent.status ≡ none
    → contains_hash updaters (hash_username username) ≡ true
    → detect_phase order (some (extract_parent_state parent owner)) ≡ initialized
    → let state = extract_parent_state parent owner in
      (state.has_observed_generation ≡ true)
      × (state.observed_generation ≡ pos n)
      × (contains_hash state.controllers (hash_username username) ≡ true)
      × (((detect_at hash_username order state username updaters).drift_detected ≡ true)
          ↔ (parent.generation ≡ pos n))
unfolding extract_parent_state
status_update-detect_at old new hash_username username n parent owner order updaters clean small
      annotations unseen updater steady =
    let state = extract_parent_state parent owner in
    let seen : observed_generation parent ≡ some (pos n) =
      unfold observed_generation in
      rw
        (
          unseen,
          annotations,
          written_generation old new (hash_username username) (pos n),
          parse-format_pos n small,
        )
        refl in
    let (before, written) = written_controllers old new (hash_username username) (pos n) in
    let text : entry parent.annotations controllers_annotation
        ≡ add_hash before (hash_username username) =
      rw annotations written in
    let (recorded, _) = add_hash-parse before (hash_username username) clean in
    let controller : contains_hash state.controllers (hash_username username) ≡ true =
      ap (λ x. contains_hash (parse_hashes x) (hash_username username)) text ∙ recorded in
    let who : is_controller_by_hash state (hash_username username) updaters ≡ (true, true) =
      is_controller_of_updater state (hash_username username) updaters updater
      ∙ rw (contained_not_empty state.controllers (hash_username username) controller, controller)
          refl in
    let observed : state.observed_generation ≡ pos n = ap (λ x. option_or x (pos 0)) seen in
    let (to, from) = detect_at-drift hash_username order state username updaters in
    (
      ap is_some seen,
      observed,
      controller,
      (
        λ h. let (_, _, same) = to h in same ∙ observed,
        λ h. from (inl steady, who, h ∙ sym observed),
      ),
    )
