-- ===== src/Trace/Propagator.antt =====
-- pkg/trace/propagator.go: the trace of a mutated object.
use kausality.Base.{
  String, ℕ, eq_ℤ, Bool, true, false, not, ◌&&◌, ◌==◌, if◌then◌else◌, List, [], ◌∷◌, is_empty,
  Option, none, some, Result, ok, ◌>>=◌, wrap,
}
use kausality.Annotations.{trace_annotation}
use kausality.Kube.{Client, Codec, Object, entry}
use kausality.Drift.State.{ParentState}
use kausality.Drift.Resolver.{resolve_parent}
use kausality.Drift.Detector.{is_controller_by_hash}
use kausality.Trace.Types.{
  Hop, Trace, parse_trace, append, new_hop, new_hop_with_labels, extract_trace_labels,
}

pub record PropagationResult : Type 0 where
  pub trace : Trace
  pub is_origin : Bool
  pub parent_trace : Trace

-- `isOrigin`; the user's hash is an argument.
unfoldable pub is_origin : Option ParentState → String → List String → Bool
unfolding is_controller_by_hash
is_origin none user_hash child_updaters = true
is_origin (some state) user_hash child_updaters =
    let (is_controller, can_determine) = is_controller_by_hash state user_hash child_updaters in
    if can_determine && not is_controller
    then true
    else if state.has_observed_generation
    then eq_ℤ state.generation state.observed_generation
    else if can_determine && is_controller
    then false
    else true

unfoldable pub get_trace_from_object : Codec Trace → Object → Result Trace
unfolding parse_trace
get_trace_from_object json o =
    let text = entry o.annotations trace_annotation in
    if text == "" then ok [] else parse_trace json text

unfoldable pub get_parent_trace :
    (c : Client) → Codec Trace → c.World → Option ParentState → Result Trace
unfolding get_trace_from_object
get_parent_trace c json w none = ok []
get_parent_trace c json w (some state) =
    wrap "invalid parent API version: " (c.parse_group_version state.ref.api_version) >>= λ _.
    wrap "failed to get parent: " (
      c.get w (record {
        api_version = state.ref.api_version;
        kind = state.ref.kind;
        namespace = state.ref.namespace;
        name = state.ref.name;
      }))
    >>= λ parent. get_trace_from_object json parent

-- The parent's trace, or one hop for a parent that has none.
unfoldable pub synthesized : ℕ → Option ParentState → Trace → Trace
unfolding new_hop
synthesized now none trace = trace
synthesized now (some state) trace =
    if is_empty trace
    then new_hop now state.ref.api_version state.ref.kind state.ref.name state.generation "" "" ∷ []
    else trace

unfoldable pub own_hop : ℕ → Object → String → String → Hop
unfolding new_hop_with_labels extract_trace_labels
own_hop now o user request_uid =
    let api_version = if o.api_version == "/" then "v1" else o.api_version in
    new_hop_with_labels now api_version o.kind o.name o.generation user request_uid
      (extract_trace_labels o.annotations)

unfoldable pub originated : ℕ → Object → String → String → PropagationResult
unfolding own_hop
originated now o user request_uid = record {
  trace = own_hop now o user request_uid ∷ [];
  is_origin = true;
  parent_trace = [];
}

unfoldable pub extended : ℕ → Object → String → String → Trace → PropagationResult
unfolding own_hop append
extended now o user request_uid parent_trace = record {
  trace = append parent_trace (own_hop now o user request_uid);
  is_origin = false;
  parent_trace = parent_trace;
}

-- `Propagate` behind the resolution of the parent.
unfoldable pub propagate_at :
    (c : Client)
    → Codec Trace
    → (String → String)
    → ℕ
    → c.World
    → Object
    → String
    → List String
    → String
    → Option ParentState
    → Result PropagationResult
unfolding is_origin get_parent_trace synthesized originated extended
propagate_at c json hash_username now w o user child_updaters request_uid state =
    let found = wrap "failed to get parent trace: " (get_parent_trace c json w state) in
    if is_origin state (hash_username user) child_updaters
    then ok (originated now o user request_uid)
    else (found >>= λ trace. ok (extended now o user request_uid (synthesized now state trace)))

unfoldable pub propagate :
    (c : Client)
    → Codec Trace
    → (String → String)
    → ℕ
    → c.World
    → Object
    → String
    → List String
    → String
    → Result PropagationResult
unfolding resolve_parent propagate_at
propagate c json hash_username now w o user child_updaters request_uid =
    wrap "failed to resolve parent: " (resolve_parent c w o) >>= λ state.
    propagate_at c json hash_username now w o user child_updaters request_uid state
