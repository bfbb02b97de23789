-- ===== src/Trace/Hops.antt =====
-- api/v1alpha1/trace_types.go and pkg/trace/propagator.go: the shape of a trace, what starts one,
-- and the labels of a hop.
use Prim.Native.String.{◌++◌}
use kausality.Base.{
  ◌⊎◌, ◌≢◌, ◌++◌ as append_list, String, ℕ, eq_ℤ, eq_ℤ_iff, true, false, ◌==◌, if◌then◌else◌, List,
  [], ◌∷◌, is_empty, Option, none, some, Dict, lookup, lookup-insert, ok, ◌≡◌, ◌↔◌, refl, ap, sym,
  ◌∙◌, arith, inl, inr, Bool-cases, Option-cases, eq_iff, ne→eq-false,
}
use kausality.Base.Prefix.{cut_prefix, cut_prefix-append, cut_prefix-eq-some}
use kausality.Annotations.{trace_annotation, trace_metadata_prefix}
use mathlib.Core.Option.{some-injective, none-ne-some}
use kausality.Kube.{entry, Client, Codec, Object}
use kausality.Drift.State.{ParentState, initialized, InitializationDetector}
use kausality.Drift.Lifecycle.{detect_phase}
use kausality.Drift.Detector.{is_controller_by_hash, detect_at}
use kausality.Drift.Verdicts.{detect_at-drift}
use kausality.Trace.Types.{Trace, Hop, new_hop, labels_from, extract_trace_labels}
use kausality.Trace.Propagator.{PropagationResult, is_origin}

controller_origin :
    (state : ParentState) (hash : String) (updaters : List String)
    → is_controller_by_hash state hash updaters ≡ (true, true)
    → state.has_observed_generation ≡ true
    → is_origin (some state) hash updaters ≡ eq_ℤ state.generation state.observed_generation
unfolding is_origin
controller_origin state hash updaters who seen = rw (who, seen) refl

-- What starts a new trace: there is no parent; or the user is known not to be its controller; or the
-- parent has an observed generation and it is the current one; or it has none, and it cannot be told
-- who its controller is.
abbrev pub Origin : Option ParentState → String → List String → Type 0
Origin none hash updaters = Unit
Origin (some state) hash updaters =
    let (is_controller, can_determine) = is_controller_by_hash state hash updaters in
    ((can_determine ≡ true) × (is_controller ≡ false))
    ⊎ (((state.has_observed_generation ≡ true) × (state.generation ≡ state.observed_generation))
        ⊎ ((state.has_observed_generation ≡ false) × (can_determine ≡ false)))

-- The trace that the annotation of an object holds.
abbrev pub Holds : Codec Trace → Object → Trace → Type 0
Holds json o trace =
    let text = entry o.annotations trace_annotation in
    ((text ≡ "") × (trace ≡ [])) ⊎ ((text ≢ "") × (json.unmarshal text ≡ ok trace))

-- The parent of the state, as the client has it, and the trace that is handed on from it: the one on
-- the parent, or one hop for the parent if that is empty.
abbrev pub HandedOn : (c : Client) → Codec Trace → ℕ → c.World → ParentState → Trace → Type 0
HandedOn c json now w state trace =
    (parent : Object) × (held : Trace) × (c.get w (record {
      api_version = state.ref.api_version;
      kind = state.ref.kind;
      namespace = state.ref.namespace;
      name = state.ref.name;
    })
      ≡ ok parent)
    × Holds json parent held
    × (trace ≡ (
        if is_empty held
        then new_hop now state.ref.api_version state.ref.kind state.ref.name state.generation "" ""
          ∷ []
        else held))

-- How the trace of a result comes about, by the parent.
abbrev Shape :
    (c : Client) → Codec Trace → ℕ → c.World → Hop → Option ParentState → PropagationResult → Type 0
Shape c json now w hop parent r =
    ((r.is_origin ≡ true) × (r.trace ≡ hop ∷ []))
    ⊎ ((r.is_origin ≡ false)
        × (state : ParentState) × (before : Trace) × (parent ≡ some state)
        × HandedOn c json now w state before
        × (r.trace ≡ append_list before (hop ∷ [])))

abbrev Explained :
    (c : Client)
    → Codec Trace
    → ℕ
    → c.World
    → Hop
    → Option ParentState
    → String
    → List String
    → PropagationResult
    → Type 0
Explained c json now w hop parent hash updaters r =
    ((r.is_origin ≡ true) ↔ Origin parent hash updaters) × Shape c json now w hop parent r

-- A change of a child whose parent is in its steady phase and has an observed generation is drift
-- exactly when it starts a new trace although the user is known to be the parent's controller.
pub is_origin-drift :
    (hash_username : String → String) (order : List InitializationDetector) (state : ParentState)
    (username : String) (updaters : List String)
    → detect_phase order (some state) ≡ initialized
    → state.has_observed_generation ≡ true
    → ((detect_at hash_username order state username updaters).drift_detected ≡ true) ↔ (
        (is_origin (some state) (hash_username username) updaters ≡ true)
        × (is_controller_by_hash state (hash_username username) updaters ≡ (true, true)))
is_origin-drift hash_username order state username updaters steady seen =
    let (to, from) = detect_at-drift hash_username order state username updaters in
    let origin =
      λ (who : is_controller_by_hash state (hash_username username) updaters ≡ (true, true)).
        controller_origin state (hash_username username) updaters who seen in
    (
      λ h. let (_, who, same) = to h in (origin who ∙ (eq_ℤ_iff _ _).1 same, who),
      λ (o, who). from (inl steady, who, (eq_ℤ_iff _ _).0 (sym (origin who) ∙ o)),
    )

key-eq-prefix :
    (label key : String)
    → (trace_metadata_prefix ++ label == key)
      ≡ elim (cut_prefix trace_metadata_prefix key) [ none ↦ false | some rest ↦ label == rest ]
key-eq-prefix label key =
    let prefix = trace_metadata_prefix in
    let full = trace_metadata_prefix ++ label in
    elim (Option-cases (cut_prefix trace_metadata_prefix key)) [
      | inl e ↦ rw e (
          ne→eq-false full key (λ q.
            none-ne-some _
              (sym e ∙ ap (cut_prefix prefix) (sym q) ∙ cut_prefix-append prefix label)))
      | inr (rest, e) ↦
          let split = cut_prefix-eq-some prefix key rest e in
          let to : full ≡ key → label ≡ rest = λ q.
            some-injective _ _
              (sym (cut_prefix-append prefix label) ∙ ap (cut_prefix prefix) q ∙ e) in
          let from : label ≡ rest → full ≡ key = λ q. ap (λ x. prefix ++ x) q ∙ sym split in
          rw e (ground (arith, eq_iff full key, eq_iff label rest, to, from))
    ]

lookup-labels_from :
    (annotations : Dict String) (label : String)
    → lookup label (labels_from annotations)
      ≡ (if label == "" then none else lookup (trace_metadata_prefix ++ label) annotations)
unfolding labels_from lookup
lookup-labels_from [] label = ground arith
lookup-labels_from (e ∷ annotations) label =
    let named = key-eq-prefix label e.0 in
    let later = lookup-labels_from annotations label in
    elim (Option-cases (cut_prefix trace_metadata_prefix e.0)) [
      | inl q ↦ rw (q, named, q) later
      | inr (rest, q) ↦ elim (Bool-cases (rest == "")) [
        | inl z ↦
            rw (q, z, named, q)
              (ground (
                arith,
                later,
                eq_iff rest "",
                eq_iff label "",
                eq_iff label rest,
                eq_iff rest label,
              ))
        | inr z ↦
            rw (q, z, named, q, lookup-insert rest label e.1 (labels_from annotations))
              (ground (
                arith,
                later,
                eq_iff rest "",
                eq_iff label "",
                eq_iff label rest,
                eq_iff rest label,
              ))
      ]
    ]

-- A hop has the label `label` exactly where the object has the annotation of that name behind
-- "kausality.io/trace-", and with its value; the empty label is never there.
pub lookup-extract_trace_labels :
    (annotations : Dict String) (label : String)
    → lookup label (extract_trace_labels (some annotations))
      ≡ (if label == "" then none else lookup (trace_metadata_prefix ++ label) annotations)
unfolding extract_trace_labels
lookup-extract_trace_labels annotations label = lookup-labels_from annotations label
