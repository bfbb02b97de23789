-- ===== src/Annotations.antt =====
-- api/v1alpha1/annotations.go: the keys of the kausality.io annotations and their values.
use kausality.Base.{ℕ, String}

abbrev pub trace_annotation : String
trace_annotation = "kausality.io/trace"

abbrev pub trace_metadata_prefix : String
trace_metadata_prefix = "kausality.io/trace-"

abbrev pub controllers_annotation : String
controllers_annotation = "kausality.io/controllers"

abbrev pub updaters_annotation : String
updaters_annotation = "kausality.io/updaters"

abbrev pub phase_annotation : String
phase_annotation = "kausality.io/phase"

abbrev pub approvals_annotation : String
approvals_annotation = "kausality.io/approvals"

abbrev pub rejections_annotation : String
rejections_annotation = "kausality.io/rejections"

abbrev pub freeze_annotation : String
freeze_annotation = "kausality.io/freeze"

abbrev pub snooze_annotation : String
snooze_annotation = "kausality.io/snooze"

abbrev pub observed_generation_annotation : String
observed_generation_annotation = "kausality.io/observedGeneration"

abbrev pub phase_value_initializing : String
phase_value_initializing = "initializing"

abbrev pub phase_value_initialized : String
phase_value_initialized = "initialized"

abbrev pub max_hashes : ℕ
max_hashes = 5

abbrev pub approval_mode_once : String
approval_mode_once = "once"

abbrev pub approval_mode_generation : String
approval_mode_generation = "generation"

abbrev pub approval_mode_always : String
approval_mode_always = "always"
