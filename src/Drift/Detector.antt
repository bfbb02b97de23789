-- ===== src/Drift/Detector.antt =====
-- pkg/drift/detector.go: whether a mutation is drift.
use Prim.Native.String.{◌++◌}
use kausality.Base.{
  String, eq_ℤ, Bool, true, false, ◌==◌, if◌then◌else◌, List, [], ◌∷◌, is_empty, none, some, ok,
  err, not,
}
use kausality.Base.Digits.{format_int}
use kausality.Kube.{Client, Object, entry}
use kausality.Annotations.{updaters_annotation}
use kausality.Controller.Hashes.{parse_hashes, contains_hash, intersect}
use kausality.Drift.State.{
  ParentState, LifecyclePhase, unset, initializing, initialized, deleting, DriftResult,
  InitializationDetector,
}
use kausality.Drift.Lifecycle.{detect_phase}
use kausality.Drift.Resolver.{resolve_parent}

-- `(isController, canDetermine)` of `IsControllerByHash`; the user's hash is an argument.
unfoldable pub is_controller_by_hash : ParentState → String → List String → Bool × Bool
unfolding intersect contains_hash
is_controller_by_hash state user_hash child_updaters =
    if not (is_empty state.controllers)
    then if not (is_empty child_updaters)
      then (let intersection = intersect child_updaters state.controllers in
          if not (is_empty intersection)
          then (contains_hash intersection user_hash, true)
          else (contains_hash state.controllers user_hash, true))
      else (contains_hash state.controllers user_hash, true)
    else elim child_updaters [
      | [] ↦ (true, true)
      | h ∷ more ↦ if is_empty more then (user_hash == h, true) else (false, false)
    ]

unfoldable pub parse_updater_hashes : Object → List String
unfolding parse_hashes
parse_updater_hashes o = parse_hashes (entry o.annotations updaters_annotation)

-- The result that every branch below starts from.
abbrev verdict : ParentState → LifecyclePhase → Bool → String → DriftResult
verdict state phase drift reason = record {
  allowed = true;
  reason = reason;
  drift_detected = drift;
  parent_ref = some state.ref;
  parent_state = some state;
  lifecycle_phase = phase;
}

abbrev no_parent : Bool → String → DriftResult
no_parent allowed reason = record {
  allowed = allowed;
  reason = reason;
  drift_detected = false;
  parent_ref = none;
  parent_state = none;
  lifecycle_phase = unset;
}

unfoldable pub check_generation : ParentState → LifecyclePhase → DriftResult
unfolding format_int
check_generation state phase =
    let compared = λ (sign : String).
      format_int state.generation ++ (sign ++ (format_int state.observed_generation ++ ")")) in
    if not (eq_ℤ state.generation state.observed_generation)
    then verdict state phase false
        ("expected change: parent generation (" ++ compared ") != observedGeneration (")
    else verdict state phase true
        ("drift detected: parent generation (" ++ compared ") == observedGeneration (")

-- The part of `Detect` behind the resolution of the parent.
unfoldable pub detect_at :
    (String → String)
    → List InitializationDetector
    → ParentState
    → String
    → List String
    → DriftResult
unfolding detect_phase is_controller_by_hash check_generation
detect_at hash_username order state username child_updaters =
    let (is_controller, can_determine) =
      is_controller_by_hash state (hash_username username) child_updaters in
    let steady =
      if not can_determine
      then verdict state initialized false
          "cannot determine controller identity (multiple updaters, no parent controllers annotation)"
      else if not is_controller
      then verdict state initialized false
          ("change by different actor (hash " ++ (hash_username username ++ ")"))
      else check_generation state initialized in
    elim (detect_phase order (some state)) [
      | deleting ↦ verdict state deleting false "parent is being deleted (cleanup phase)"
      | initializing ↦ verdict state initializing false "parent is initializing"
      | initialized ↦ steady
      | unset ↦ steady
    ]

-- `Detect`. It returns no error of its own: a parent that cannot be resolved gives a refusal.
unfoldable pub detect :
    (c : Client)
    → (String → String)
    → List InitializationDetector
    → c.World
    → Object
    → String
    → List String
    → DriftResult
unfolding resolve_parent detect_at
detect c hash_username order w o username child_updaters = elim (resolve_parent c w o) [
  | err e ↦ no_parent false ("failed to resolve parent: " ++ e)
  | ok none ↦ no_parent true "no controller owner reference"
  | ok (some state) ↦ detect_at hash_username order state username child_updaters
]
