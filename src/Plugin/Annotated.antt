-- ===== src/Plugin/Annotated.antt =====
-- cmd/example-generic-control-plane/pkg/admission/kausality.go and pkg/admission/handler.go: the
-- annotations of an object that has taken the patches of the handler.
use kausality.Base.{
  String, Bool, true, false, not, ◌==◌, if◌then◌else◌, List, [], ◌∷◌, is_empty, keep, option_or,
  Option, none, some, is_some, ok, Dict, lookup, ◌≡◌, refl, sym, ap, ◌∙◌, inl, inr, Bool-cases,
}
use kausality.Annotations.{trace_annotation, updaters_annotation}
use kausality.Kube.{Object, entry}
use kausality.Controller.Hashes.{add_hash}
use kausality.Admission.Annotations.{is_kausality_annotation}
use kausality.Admission.Requests.{
  create, update, delete, connect, Request, annotations_added, entries_set,
}
use kausality.Admission.Handling.{patch_operation, patch_for}
use kausality.Plugin.Document.{
  Json, object, value, Fields, empty, field, field_of, set_field, JsonPatch, apply_patch, apply_all,
}
use kausality.Plugin.Patched.{at, below, field_of-set_field, field_of-set_field_self}
use kausality.Plugin.Admit.{replace_slashes, annotation_path, patch_of, patches_of}
use kausality.Plugin.Entries.{
  with_annotations, annotation-with_annotations, entry_patched, whole_patched, field_of_two,
  at_annotations,
}

-- The annotations that the controllers are read from, and the entry behind `Handle`.
abbrev pub updaters_before : Request → Object → Dict String
updaters_before req o =
    let original : Dict String = option_or o.annotations [] in
    elim req.operation as (λ _. Dict String) [
      | create ↦ keep (λ e. not (is_kausality_annotation e.0)) original
      | update ↦ original
      | delete ↦ original
      | connect ↦ original
    ]

abbrev pub updaters_after : Request → Object → String → String
updaters_after req o user_hash =
    add_hash (entry (some (updaters_before req o)) updaters_annotation) user_hash

module _ (diff : String → String → List JsonPatch) (show : JsonPatch → String) where
  apply_all-one :
      (p : JsonPatch) (fields first : Fields)
      → apply_patch fields p ≡ ok first
      → apply_all show (p ∷ []) fields ≡ ok first
  unfolding apply_all
  apply_all-one p fields first a = rw (a, apply_all) refl

  apply_all-two :
      (p q : JsonPatch) (fields first second : Fields)
      → apply_patch fields p ≡ ok first
      → apply_patch first q ≡ ok second
      → apply_all show (p ∷ q ∷ []) fields ≡ ok second
  unfolding apply_all
  apply_all-two p q fields first second a b = rw (a, apply_all, b) refl

  entries_applied :
      (a b : Bool) (raw new_trace updaters : String) (fields metadata annotations : Fields)
      → field_of "metadata" fields ≡ some (object metadata)
      → field_of "annotations" metadata ≡ some (object annotations)
      → (patched : Fields) × (apply_all show
            (patches_of diff raw
              (entries_set (patch_operation a) new_trace (patch_operation b) updaters))
            fields
          ≡ ok patched)
        × ((key : String)
            → at "metadata" ("annotations" ∷ key ∷ []) patched ≡ (
                if updaters_annotation == key
                then some (value updaters)
                else if trace_annotation == key
                then some (value new_trace)
                else field_of key annotations))
  unfolding patches_of apply_all replace_slashes
  entries_applied a b raw new_trace updaters fields metadata annotations m n =
      let traced = set_field trace_annotation (value new_trace) annotations in
      let updated = set_field updaters_annotation (value updaters) traced in
      let metadata' = set_field "annotations" (object traced) metadata in
      let fields' = set_field "metadata" (object metadata') fields in
      let first =
        entry_patched a trace_annotation (annotation_path trace_annotation) (value new_trace) fields
          metadata annotations refl m n in
      let second =
        entry_patched b updaters_annotation (annotation_path updaters_annotation) (value updaters)
          fields' metadata' traced refl
          (field_of-set_field_self "metadata" (object metadata') fields)
          (field_of-set_field_self "annotations" (object traced) metadata) in
      (
        with_annotations fields' metadata' updated,
        apply_all-two
            (patch_of (patch_operation a) (annotation_path trace_annotation) (value new_trace))
            (patch_of (patch_operation b) (annotation_path updaters_annotation) (value updaters))
            fields fields' (with_annotations fields' metadata' updated) first second,
        λ key.
            annotation-with_annotations fields' metadata' updated key
            ∙ field_of-set_field updaters_annotation key (value updaters) traced
            ∙ ap (λ x. if updaters_annotation == key then some (value updaters) else x)
                (field_of-set_field trace_annotation key (value new_trace) annotations),
      )

  annotations_applied :
      (raw new_trace updaters : String) (fields metadata : Fields)
      → field_of "metadata" fields ≡ some (object metadata)
      → (patched : Fields) × (apply_all show
            (patches_of diff raw (annotations_added new_trace updaters))
            fields
          ≡ ok patched)
        × ((key : String)
            → at "metadata" ("annotations" ∷ key ∷ []) patched ≡ (
                if updaters_annotation == key
                then some (value updaters)
                else if trace_annotation == key
                then some (value new_trace)
                else none))
  unfolding patches_of
  annotations_applied raw new_trace updaters fields metadata m =
      let annotations =
        field trace_annotation (value new_trace)
          (field updaters_annotation (value updaters) empty) in
      (
        with_annotations fields metadata annotations,
        apply_all-one (patch_of "add" "/metadata/annotations" (object annotations)) fields
            (with_annotations fields metadata annotations)
            (whole_patched (object annotations) fields metadata m),
        λ key.
            annotation-with_annotations fields metadata annotations key
            ∙ field_of_two key (value new_trace) (value updaters),
      )

  -- An object with a map `metadata`, whose annotations are a map where the handler has read some, and
  -- absent or none where it has read none. The patches that `Handle` returns for it succeed, and
  -- afterwards the annotations hold the new updaters and the new trace, and every other key what it held. That
  -- holds for a creation as well, where the comment of the code says that the kausality annotations
  -- copied from the parent are wiped: those other than the updaters and the trace keep their values.
  pub patch_for-annotates :
      (req : Request) (o : Object) (raw new_trace user_hash : String) (fields metadata : Fields)
      → field_of "metadata" fields ≡ some (object metadata)
      → (is_empty (option_or o.annotations []) ≡ false
          → (annotations : Fields) × (field_of "annotations" metadata ≡ some (object annotations)))
      → (is_empty (option_or o.annotations []) ≡ true
          → (key : String) → at "annotations" (key ∷ []) metadata ≡ none)
      → (patched : Fields) × (apply_all show
            (patches_of diff raw (patch_for req o new_trace user_hash))
            fields
          ≡ ok patched)
        × ((key : String)
            → at "metadata" ("annotations" ∷ key ∷ []) patched ≡ (
                if updaters_annotation == key
                then some (value (updaters_after req o user_hash))
                else if trace_annotation == key
                then some (value new_trace)
                else at "metadata" ("annotations" ∷ key ∷ []) fields))
  unfolding patch_for
  patch_for-annotates req o raw new_trace user_hash fields metadata m some_set none_set =
      elim (Bool-cases (is_empty (option_or o.annotations []))) [
        | inl e ↦
            let (patched, done, held) =
              annotations_applied raw new_trace (updaters_after req o user_hash) fields metadata
                m in
            (
              patched,
              rw (e, patch_for) done,
              λ key.
                  held key
                  ∙ ap (replaced key) (sym (at_annotations fields metadata key m ∙ none_set e key)),
            )
        | inr e ↦
            let (annotations, n) = some_set e in
            let original : Dict String = option_or o.annotations [] in
            let (patched, done, held) =
              entries_applied (is_some (lookup trace_annotation original))
                (is_some (lookup updaters_annotation original)) raw new_trace
                (updaters_after req o user_hash) fields metadata annotations m n in
            (
              patched,
              rw (e, patch_for) done,
              λ key.
                  held key
                  ∙ ap (replaced key)
                      (sym (at_annotations fields metadata key m ∙ ap (below (key ∷ [])) n)),
            )
      ]
    where
      replaced : String → Option Json → Option Json
      replaced key x =
          if updaters_annotation == key
          then some (value (updaters_after req o user_hash))
          else if trace_annotation == key
          then some (value new_trace)
          else x
