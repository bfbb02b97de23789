-- ===== src/Drift/State.antt =====
-- pkg/drift/types.go: the parent's state and the result of a detection.
use Prim.Native.String.{◌++◌}
use kausality.Base.{String, ℕ, ℤ, Bool, ◌==◌, if◌then◌else◌, List, [], ◌∷◌, Option}

pub record ParentRef : Type 0 where
  pub api_version : String
  pub kind : String
  pub namespace : String
  pub name : String

-- `ParentRef.String`
pub parent_ref_text : ParentRef → String
parent_ref_text p =
    if p.namespace == ""
    then p.api_version ++ ("/" ++ (p.kind ++ (":" ++ p.name)))
    else p.api_version ++ ("/" ++ (p.kind ++ (":" ++ (p.namespace ++ ("/" ++ p.name)))))

-- metav1.Condition, as far as it is read.
pub record Condition : Type 0 where
  pub type : String
  pub status : String
  pub reason : String
  pub message : String

pub record ParentState : Type 0 where
  pub ref : ParentRef
  pub generation : ℤ
  pub observed_generation : ℤ
  pub has_observed_generation : Bool
  pub controllers : List String
  pub deletion_timestamp : Option ℕ
  pub conditions : List Condition
  pub is_initialized : Bool
  pub phase_from_annotation : String

-- `LifecyclePhase`, a string in the source; `unset` is its zero value.
pub data LifecyclePhase : Type 0 where
  unset initializing initialized deleting : LifecyclePhase

unfoldable pub phase_text : LifecyclePhase → String
phase_text unset = ""
phase_text initializing = "Initializing"
phase_text initialized = "Initialized"
phase_text deleting = "Deleting"

abbrev pub condition_type_initialized : String
condition_type_initialized = "Initialized"

abbrev pub condition_type_ready : String
condition_type_ready = "Ready"

abbrev pub condition_type_available : String
condition_type_available = "Available"

abbrev pub condition_type_synced : String
condition_type_synced = "Synced"

-- `unknown` stands for the other values of the integer type.
pub data InitializationDetector : Type 0 where
  detect_by_initialized_condition : InitializationDetector
  detect_by_ready_condition : InitializationDetector
  detect_by_observed_generation : InitializationDetector
  unknown : InitializationDetector

abbrev pub default_detection_order : List InitializationDetector
default_detection_order =
    detect_by_initialized_condition ∷ detect_by_ready_condition ∷ detect_by_observed_generation ∷ []

pub record DriftResult : Type 0 where
  pub allowed : Bool
  pub reason : String
  pub drift_detected : Bool
  pub parent_ref : Option ParentRef
  pub parent_state : Option ParentState
  pub lifecycle_phase : LifecyclePhase
