-- ===== src/Admission/Preservation.antt =====
-- pkg/admission/handler.go: what the merged annotations hold, and what the drift detector later
-- reads from them.
use kausality.Base.{
  String, ℤ, Bool, true, false, ◌==◌, if◌then◌else◌, [], ◌∷◌, some, Dict, insert, lookup,
  lookup-insert, option_or, ◌≡◌, refl, ap, arith, Bool-cases, inl, inr, eq_iff,
}
use kausality.Base.Digits.{format_int}
use kausality.Annotations.{
  trace_annotation, updaters_annotation, controllers_annotation, observed_generation_annotation,
}
use kausality.Kube.{entry}
use kausality.Controller.Hashes.{add_hash}
use kausality.Drift.Resolver.{or_else}
use kausality.Admission.Annotations.{
  preserve, is_kausality_annotation, compute_annotations_for_user,
  compute_annotations_for_status_update,
}

==-sym : (a b : String) → (a == b) ≡ (b == a)
==-sym a b = ground (arith, eq_iff a b, eq_iff b a)

lookup-preserve :
    (p : String → Bool) (old result : Dict String) (key : String)
    → lookup key (preserve p old result)
      ≡ (if p key then or_else (lookup key old) (lookup key result) else lookup key result)
unfolding preserve lookup
lookup-preserve p [] result key = ground arith
lookup-preserve p (e ∷ old) result key =
    let same : key ≡ e.0 → p key ≡ p e.0 = λ q. ap p q in
    let found = lookup-insert e.0 key e.1 (preserve p old result) in
    let later = lookup-preserve p old result key in
    elim (Bool-cases (key == e.0)) [
      | inl q ↦ elim (Bool-cases (p e.0)) [
        | inl h ↦ rw (h, same ((eq_iff key e.0).0 q), h, q, found, ==-sym e.0 key, q) refl
        | inr h ↦ rw (h, later, same ((eq_iff key e.0).0 q), h) refl
      ]
      | inr q ↦ elim (Bool-cases (p e.0)) [
        | inl h ↦ rw (h, q, found, ==-sym e.0 key, q, later) refl
        | inr h ↦ rw (h, q, later) refl
      ]
    ]

-- `computeAnnotationsForUser`: without a change of the spec each kausality annotation of the old
-- object stands again, whatever the new one says, and the others are the new object's. With one,
-- the trace and the updaters are the computed ones and the rest is the new object's.
pub compute_annotations_for_user_lem :
    (old new : Dict String) (spec_changed : Bool) (new_trace new_updaters key : String)
    → lookup key (compute_annotations_for_user old new spec_changed new_trace new_updaters) ≡ (
        if spec_changed
        then (if updaters_annotation == key
            then some new_updaters
            else if trace_annotation == key
            then some new_trace
            else lookup key new)
        else if is_kausality_annotation key
        then or_else (lookup key old) (lookup key new)
        else lookup key new)
unfolding compute_annotations_for_user
compute_annotations_for_user_lem old new true new_trace new_updaters key =
    rw
      (
        lookup-insert updaters_annotation key new_updaters (insert trace_annotation new_trace new),
        lookup-insert trace_annotation key new_trace new,
      )
      refl
compute_annotations_for_user_lem old new false new_trace new_updaters key =
    lookup-preserve is_kausality_annotation old new key

-- What the status update keeps under the keys that it does not write.
pub compute_annotations_for_status_update_lem :
    (old new : Dict String) (user_hash : String) (generation : ℤ) (key : String)
    → lookup key (compute_annotations_for_status_update old new user_hash generation) ≡ (
        if observed_generation_annotation == key
        then some (format_int generation)
        else if controllers_annotation == key
        then some (
            add_hash
              (option_or
                (or_else (lookup controllers_annotation old) (lookup controllers_annotation new))
                "")
              user_hash)
        else if is_kausality_annotation key
        then or_else (lookup key old) (lookup key new)
        else lookup key new)
unfolding compute_annotations_for_status_update
compute_annotations_for_status_update_lem old new user_hash generation key =
    let result = preserve is_kausality_annotation old new in
    let controlled =
      insert controllers_annotation
        (add_hash (entry (some result) controllers_annotation) user_hash) result in
    rw
      (
        lookup-insert observed_generation_annotation key (format_int generation) controlled,
        lookup-insert controllers_annotation key
            (add_hash (entry (some result) controllers_annotation) user_hash) result,
        lookup-preserve is_kausality_annotation old new key,
        lookup-preserve is_kausality_annotation old new controllers_annotation,
      )
      refl
