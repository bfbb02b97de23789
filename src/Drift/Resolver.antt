-- ===== src/Drift/Resolver.antt =====
-- pkg/drift/resolver.go: finding the controller parent of an object, and reading its state.
use Prim.Native.String.{◌++◌}
use kausality.Base.{
  String, ℤ, pos, false, ◌==◌, if◌then◌else◌, List, [], ◌∷◌, Option, none, some, option_or, Result,
  ok, wrap, ◌>>=◌, is_some,
}
use kausality.Base.Digits.{parse_int}
use kausality.Annotations.{
  observed_generation_annotation, phase_annotation, phase_value_initialized, controllers_annotation,
}
use kausality.Kube.{Client, Object, OwnerReference, RawCondition, Status, entry?, entry}
use kausality.Controller.Hashes.{parse_hashes}
use kausality.Drift.State.{ParentState, Condition, condition_type_synced, condition_type_ready}

unfoldable pub find_controller_owner_ref : List OwnerReference → Option OwnerReference
find_controller_owner_ref [] = none
find_controller_owner_ref (r ∷ refs) =
    if option_or r.controller false then some r else find_controller_owner_ref refs

-- The loop of `ExtractConditionObservedGeneration`; `ready` is what the Ready conditions gave so
-- far. An entry that is no map is passed over.
unfoldable pub observed_from : Option ℤ → List (Option RawCondition) → Option ℤ
observed_from ready [] = ready
observed_from ready (none ∷ conditions) = observed_from ready conditions
observed_from ready (some c ∷ conditions) =
    let skipped = observed_from ready conditions in
    elim c.observed_generation [
      | none ↦ skipped
      | some g ↦
          if option_or c.type "" == condition_type_synced
          then some g
          else observed_from (if option_or c.type "" == condition_type_ready then some g else ready)
              conditions
    ]

unfoldable pub extract_condition_observed_generation : Status → Option ℤ
unfolding observed_from
extract_condition_observed_generation status = elim status.conditions [
  | none ↦ none
  | some conditions ↦ observed_from none conditions
]

unfoldable pub condition_of : RawCondition → Condition
condition_of c = record {
  type = option_or c.type "";
  status = option_or c.status "";
  reason = option_or c.reason "";
  message = option_or c.message "";
}

unfoldable pub conditions_from : List (Option RawCondition) → List Condition
unfolding condition_of
conditions_from [] = []
conditions_from (none ∷ conditions) = conditions_from conditions
conditions_from (some c ∷ conditions) = condition_of c ∷ conditions_from conditions

unfoldable pub extract_conditions : Status → List Condition
unfolding conditions_from
extract_conditions status = conditions_from (option_or status.conditions [])

-- The observed generation of a parent: from the status, then from a condition, then from the
-- annotation; `none` where the source leaves `HasObservedGeneration` false.
abbrev pub or_else {ℓ} : {A : Type ℓ} → Option A → Option A → Option A
or_else none b = b
or_else (some a) b = some a

unfoldable pub status_observed_generation : Option Status → Option ℤ
unfolding extract_condition_observed_generation
status_observed_generation none = none
status_observed_generation (some status) =
    or_else status.observed_generation (extract_condition_observed_generation status)

abbrev parsed : Option String → Option ℤ
parsed none = none
parsed (some text) = parse_int text

unfoldable pub observed_generation : Object → Option ℤ
unfolding status_observed_generation parse_int
observed_generation parent =
    or_else (status_observed_generation parent.status)
      (parsed (entry? parent.annotations observed_generation_annotation))

abbrev status_conditions : Option Status → List Condition
unfolding extract_conditions
status_conditions none = []
status_conditions (some status) = extract_conditions status

unfoldable pub extract_parent_state : Object → OwnerReference → ParentState
unfolding observed_generation extract_conditions parse_hashes
extract_parent_state parent owner_ref = record {
  ref = record {
    api_version = owner_ref.api_version;
    kind = owner_ref.kind;
    namespace = parent.namespace;
    name = owner_ref.name;
  };
  generation = parent.generation;
  observed_generation = option_or (observed_generation parent) (pos 0);
  has_observed_generation = is_some (observed_generation parent);
  controllers = parse_hashes (entry parent.annotations controllers_annotation);
  deletion_timestamp = parent.deletion_timestamp;
  conditions = status_conditions parent.status;
  is_initialized = entry parent.annotations phase_annotation == phase_value_initialized;
  phase_from_annotation = entry parent.annotations phase_annotation;
}

-- `ResolveParent`: no controller owner reference gives `none`.
unfoldable pub resolve_parent : (c : Client) → c.World → Object → Result (Option ParentState)
unfolding find_controller_owner_ref extract_parent_state
resolve_parent c w o = elim (find_controller_owner_ref o.owner_references) [
  | none ↦ ok none
  | some owner_ref ↦
      wrap ("invalid API version " ++ owner_ref.api_version)
        (c.parse_group_version owner_ref.api_version)
      >>= λ _.
          wrap ("failed to get parent " ++ (owner_ref.kind ++ ("/" ++ (owner_ref.name ++ ": ")))) (
            c.get w (record {
              api_version = owner_ref.api_version;
              kind = owner_ref.kind;
              namespace = o.namespace;
              name = owner_ref.name;
            }))
          >>= λ parent. ok (some (extract_parent_state parent owner_ref))
]
