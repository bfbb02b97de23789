-- ===== src/Samples/Drifts.antt =====
-- The theorems on drift at a child of the sample parent.
use kausality.Base.{String, true, false, [], ◌∷◌, some, lookup, ok, err, ◌≡◌, ◌↔◌, refl}
use kausality.Base.Text.{split_commas, trim_space}
use kausality.Drift.State.{ParentState, initialized, default_detection_order}
use kausality.Drift.Lifecycle.{has_condition_true, detect_phase}
use kausality.Drift.Resolver.{resolve_parent, extract_parent_state}
use kausality.Drift.Detector.{is_controller_by_hash, detect}
use kausality.Drift.Verdicts.{detect_iff}
use kausality.Samples.Fixtures.{cluster, steady, owner, child_object}

-- Users whose hash is their name.
abbrev same_text : String → String
same_text s = s

detect_iff_example :
    let result =
      detect cluster same_text default_detection_order steady child_object "c2" ("c2" ∷ []) in
    ((result.drift_detected ≡ true) ↔ (
      (state : ParentState) × (resolve_parent cluster steady child_object ≡ ok (some state))
      × (detect_phase default_detection_order (some state) ≡ initialized)
      × (is_controller_by_hash state "c2" ("c2" ∷ []) ≡ (true, true))
      × (state.generation ≡ state.observed_generation)))
    × ((result.allowed ≡ false)
        ↔ ((e : String) × (resolve_parent cluster steady child_object ≡ err e)))
detect_iff_example =
    detect_iff cluster same_text default_detection_order steady child_object "c2" ("c2" ∷ [])

abbrev steady_state : ParentState
unfolding extract_parent_state
steady_state = extract_parent_state steady owner

-- The controller's change is drift here, and that of another user is not.
detect_test :
    ((detect cluster same_text default_detection_order steady child_object "c2"
        ("c2" ∷ [])).drift_detected
      ≡ true)
    × ((detect cluster same_text default_detection_order steady child_object "u"
          ("u" ∷ [])).drift_detected
        ≡ false)
unfolding detect lookup has_condition_true split_commas trim_space
detect_test = (refl, refl)
