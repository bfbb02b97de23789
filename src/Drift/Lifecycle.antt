-- ===== src/Drift/Lifecycle.antt =====
-- pkg/drift/lifecycle.go: the lifecycle phase of a parent.
use kausality.Base.{
  String, Bool, true, false, ◌&&◌, ◌||◌, not, ◌==◌, if◌then◌else◌, List, [], ◌∷◌, is_empty, is_some,
  any, Option, none, some, ◌≢◌, arith,
}
use kausality.Drift.State.{
  Condition, ParentState, LifecyclePhase, unset, initializing, initialized, deleting,
  InitializationDetector, detect_by_initialized_condition, detect_by_ready_condition,
  detect_by_observed_generation, unknown, default_detection_order, condition_type_initialized,
  condition_type_ready, condition_type_available,
}

unfoldable pub has_condition_true : List Condition → String → Bool
has_condition_true [] type = false
has_condition_true (c ∷ conditions) type =
    if (c.type == type) && (c.status == "True") then true else has_condition_true conditions type

unfoldable pub check_initialized : ParentState → InitializationDetector → Bool
check_initialized state detect_by_initialized_condition =
    has_condition_true state.conditions condition_type_initialized
check_initialized state detect_by_ready_condition =
    has_condition_true state.conditions condition_type_ready
check_initialized state detect_by_observed_generation =
    if not state.has_observed_generation
    then false
    else has_condition_true state.conditions condition_type_ready
      || (has_condition_true state.conditions condition_type_available
          || has_condition_true state.conditions condition_type_initialized)
check_initialized state unknown = false

-- The loop over the detection order.
unfoldable pub first_detector : ParentState → List InitializationDetector → LifecyclePhase
first_detector state [] = initializing
first_detector state (d ∷ ds) =
    if check_initialized state d then initialized else first_detector state ds

-- The detection order is a field of the detector; none stands for a nil state.
unfoldable pub detect_phase : List InitializationDetector → Option ParentState → LifecyclePhase
unfolding first_detector check_initialized
detect_phase order none = initialized
detect_phase order (some state) =
    if is_some state.deletion_timestamp
    then deleting
    else if state.is_initialized
    then initialized
    else first_detector state (if is_empty order then default_detection_order else order)

-- A condition of the type has the status "True".
abbrev pub holds : ParentState → String → Bool
holds state type = any (λ c. (c.type == type) && (c.status == "True")) state.conditions

first_detector-ne-unset :
    (state : ParentState) (order : List InitializationDetector) → first_detector state order ≢ unset
unfolding first_detector
first_detector-ne-unset state [] = cc
first_detector-ne-unset state (d ∷ ds) = ground (arith, first_detector-ne-unset state ds)

-- A detected phase is one of the three.
pub detect_phase-ne-unset :
    (order : List InitializationDetector) (state : Option ParentState)
    → detect_phase order state ≢ unset
unfolding detect_phase
detect_phase-ne-unset order none = cc
detect_phase-ne-unset order (some state) = ground (
  arith,
  first_detector-ne-unset state default_detection_order,
  first_detector-ne-unset state order,
)
