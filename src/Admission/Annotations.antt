-- ===== src/Admission/Annotations.antt =====
-- pkg/admission/handler.go: which annotations an object has after an update.
use kausality.Base.{
  String, ℤ, Bool, not, ◌&&◌, ◌||◌, ◌==◌, if◌then◌else◌, [], ◌∷◌, none, some, Dict, insert, lookup,
}
use kausality.Base.Prefix.{has_prefix}
use kausality.Base.Digits.{format_int}
use kausality.Annotations.{
  trace_annotation, updaters_annotation, controllers_annotation, observed_generation_annotation,
}
use kausality.Kube.{entry}
use kausality.Controller.Hashes.{add_hash}

abbrev pub kausality_prefix : String
kausality_prefix = "kausality.io/"

unfoldable pub is_kausality_annotation : String → Bool
unfolding has_prefix
is_kausality_annotation key = has_prefix kausality_prefix key

unfoldable pub is_system_annotation : String → Bool
is_system_annotation key =
    (key == trace_annotation)
    || ((key == updaters_annotation)
        || ((key == controllers_annotation) || (key == observed_generation_annotation)))

-- The loops over the old annotations that put those which pass a test into the result. Go visits
-- the keys in any order, and each key once; here the first entry of a key is put in last.
unfoldable pub preserve : (String → Bool) → Dict String → Dict String → Dict String
preserve p [] result = result
preserve p ((key, old_value) ∷ old) result =
    let rest : Dict String = preserve p old result in
    if p key then insert key old_value rest else rest

-- `old` and `new` may be nil; `new` is copied into a map that is not.
unfoldable pub compute_annotations_for_controller :
    Dict String → Dict String → Bool → String → String → Dict String
unfolding preserve is_kausality_annotation is_system_annotation
compute_annotations_for_controller old new spec_changed new_trace new_updaters =
    let traced = insert updaters_annotation new_updaters (insert trace_annotation new_trace new) in
    let controlled : Dict String = elim (lookup controllers_annotation old) [
      | none ↦ traced
      | some old_controllers ↦ insert controllers_annotation old_controllers traced
    ] in
    if spec_changed
    then preserve (λ k. is_kausality_annotation k && not (is_system_annotation k)) old controlled
    else preserve is_kausality_annotation old new

unfoldable pub compute_annotations_for_user :
    Dict String → Dict String → Bool → String → String → Dict String
unfolding preserve is_kausality_annotation
compute_annotations_for_user old new spec_changed new_trace new_updaters =
    if spec_changed
    then insert updaters_annotation new_updaters (insert trace_annotation new_trace new)
    else preserve is_kausality_annotation old new

unfoldable pub compute_annotations_for_status_update :
    Dict String → Dict String → String → ℤ → Dict String
unfolding preserve is_kausality_annotation add_hash format_int
compute_annotations_for_status_update old new user_hash generation =
    let result = preserve is_kausality_annotation old new in
    insert observed_generation_annotation (format_int generation) (
      insert controllers_annotation
        (add_hash (entry (some result) controllers_annotation) user_hash) result)
