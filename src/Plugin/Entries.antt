-- ===== src/Plugin/Entries.antt =====
-- cmd/example-generic-control-plane/pkg/admission/kausality.go: one patch of the annotations.
use kausality.Base.{
  String, Bool, true, false, ◌==◌, if◌then◌else◌, [], ◌∷◌, none, some, ok, ◌≡◌, refl, ap, subst,
  ◌∙◌, inl, inr, Bool-cases, eq_iff, arith,
}
use kausality.Annotations.{trace_annotation, updaters_annotation}
use kausality.Admission.Handling.{patch_operation}
use kausality.Plugin.Pointer.{parse_path}
use kausality.Plugin.Document.{
  Json, object, Fields, empty, field, field_of, set_field, apply_last, apply_at, apply_patch,
}
use kausality.Plugin.Patched.{at, below, field_of-set_field_self}
use kausality.Plugin.Admit.{patch_of}

abbrev pub with_annotations : Fields → Fields → Fields → Fields
with_annotations fields metadata annotations =
    set_field "metadata" (object (set_field "annotations" (object annotations) metadata)) fields

pub annotation-with_annotations :
    (fields metadata annotations : Fields) (key : String)
    → at "metadata" ("annotations" ∷ key ∷ []) (with_annotations fields metadata annotations)
      ≡ field_of key annotations
annotation-with_annotations fields metadata annotations key =
    ap (below ("annotations" ∷ key ∷ [])) (field_of-set_field_self "metadata" _ fields)
    ∙ ap (below (key ∷ [])) (field_of-set_field_self "annotations" _ metadata)

pub entry_patched :
    (b : Bool) (key path : String) (new : Json) (fields metadata annotations : Fields)
    → parse_path path ≡ "metadata" ∷ "annotations" ∷ key ∷ []
    → field_of "metadata" fields ≡ some (object metadata)
    → field_of "annotations" metadata ≡ some (object annotations)
    → apply_patch fields (patch_of (patch_operation b) path new)
      ≡ ok (with_annotations fields metadata (set_field key new annotations))
unfolding apply_patch apply_at apply_last
entry_patched true key path new fields metadata annotations p m a =
    rw (p, apply_patch, apply_at, m, a, apply_last) refl
entry_patched false key path new fields metadata annotations p m a =
    rw (p, apply_patch, apply_at, m, a, apply_last) refl

pub whole_patched :
    (new : Json) (fields metadata : Fields)
    → field_of "metadata" fields ≡ some (object metadata)
    → apply_patch fields (patch_of "add" "/metadata/annotations" new)
      ≡ ok (set_field "metadata" (object (set_field "annotations" new metadata)) fields)
unfolding apply_patch apply_at apply_last parse_path
whole_patched new fields metadata m = rw (m, apply_at) refl

pub field_of_two :
    (key : String) (first second : Json)
    → field_of key (field trace_annotation first (field updaters_annotation second empty)) ≡ (
        if updaters_annotation == key
        then some second
        else if trace_annotation == key
        then some first
        else none)
unfolding field_of
field_of_two key first second = elim (Bool-cases (trace_annotation == key)) [
  | inl e ↦
      subst
        (λ k. field_of k (field trace_annotation first (field updaters_annotation second empty)) ≡ (
          if updaters_annotation == k
          then some second
          else if trace_annotation == k
          then some first
          else none))
        ((eq_iff trace_annotation key).0 e) refl
  | inr e ↦ ground (
    arith,
    eq_iff key trace_annotation,
    eq_iff trace_annotation key,
    eq_iff key updaters_annotation,
    eq_iff updaters_annotation key,
  )
]

pub at_annotations :
    (fields metadata : Fields) (key : String)
    → field_of "metadata" fields ≡ some (object metadata)
    → at "metadata" ("annotations" ∷ key ∷ []) fields ≡ at "annotations" (key ∷ []) metadata
at_annotations fields metadata key m = ap (below ("annotations" ∷ key ∷ [])) m
