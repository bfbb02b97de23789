-- ===== src/Samples/Traces.antt =====
-- The theorems on traces at the child of the sample parent.
use kausality.Base.{String, true, [], ◌∷◌, some, lookup, ◌≡◌, ◌↔◌, refl}
use kausality.Kube.{Codec}
use kausality.Drift.State.{ParentState, default_detection_order}
use kausality.Drift.Lifecycle.{detect_phase, has_condition_true}
use kausality.Drift.Resolver.{extract_parent_state}
use kausality.Drift.Detector.{is_controller_by_hash, detect_at}
use kausality.Trace.Types.{Trace}
use kausality.Trace.Types.{Trace}
use kausality.Trace.Propagator.{PropagationResult, is_origin, originated}
use kausality.Trace.Hops.{is_origin-drift}
use kausality.Samples.Fixtures.{steady, owner, child_object, table}

abbrev no_traces : Codec Trace
no_traces = table "[]" []

abbrev same_text : String → String
same_text s = s

abbrev started : PropagationResult
unfolding originated
started = originated 7 child_object "u" "r-1"

abbrev steady_state : ParentState
unfolding extract_parent_state
steady_state = extract_parent_state steady owner

is_origin-drift_example :
    ((detect_at same_text default_detection_order steady_state "c1" ("c1" ∷ [])).drift_detected
      ≡ true)
    ↔ ((is_origin (some steady_state) "c1" ("c1" ∷ []) ≡ true)
        × (is_controller_by_hash steady_state "c1" ("c1" ∷ []) ≡ (true, true)))
unfolding detect_phase steady_state has_condition_true lookup
is_origin-drift_example =
    is_origin-drift same_text default_detection_order steady_state "c1" ("c1" ∷ []) refl refl
