-- ===== src/Trace/Types.antt =====
-- api/v1alpha1/trace_types.go: traces and the labels of a hop. A timestamp is a number.
use kausality.Base.{
  String, ℕ, ℤ, ◌==◌, if◌then◌else◌, List, [], ◌∷◌, ◌++◌, is_empty, Option, none, some, Dict,
  insert, option_or, Result, ok, err,
}
use kausality.Base.Prefix.{cut_prefix}
use kausality.Annotations.{trace_metadata_prefix}
use kausality.Kube.{Codec}

-- `labels` is empty for a nil map.
pub record Hop : Type 0 where
  pub api_version : String
  pub kind : String
  pub name : String
  pub generation : ℤ
  pub user : String
  pub request_uid : String
  pub timestamp : ℕ
  pub labels : Dict String

abbrev pub Trace : Type 0
Trace = List Hop

unfoldable pub parse_trace : Codec Trace → String → Result Trace
parse_trace json text = if text == "" then ok [] else json.unmarshal text

-- `Trace.String`
unfoldable pub trace_text : Codec Trace → Trace → String
trace_text json trace =
    if is_empty trace then "[]" else elim (json.marshal trace) [ ok text ↦ text | err e ↦ "[]" ]

unfoldable pub origin : Trace → Option Hop
origin [] = none
origin (hop ∷ trace) = some hop

unfoldable pub append : Trace → Hop → Trace
append trace hop = trace ++ hop ∷ []

unfoldable pub new_hop : ℕ → String → String → String → ℤ → String → String → Hop
new_hop now api_version kind name generation user request_uid = record {
  api_version = api_version;
  kind = kind;
  name = name;
  generation = generation;
  user = user;
  request_uid = request_uid;
  timestamp = now;
  labels = [];
}

unfoldable pub new_hop_with_labels :
    ℕ → String → String → String → ℤ → String → String → Dict String → Hop
unfolding new_hop
new_hop_with_labels now api_version kind name generation user request_uid labels =
    record (new_hop now api_version kind name generation user request_uid) { labels = labels }

-- The loop of `ExtractTraceLabels`; a key that is the prefix alone is passed over.
unfoldable pub labels_from : Dict String → Dict String
unfolding cut_prefix
labels_from [] = []
labels_from ((key, value) ∷ annotations) =
    let labels : Dict String = labels_from annotations in
    elim (cut_prefix trace_metadata_prefix key) [
      | none ↦ labels
      | some label_key ↦ if label_key == "" then labels else insert label_key value labels
    ]

unfoldable pub extract_trace_labels : Option (Dict String) → Dict String
unfolding labels_from
extract_trace_labels annotations = labels_from (option_or annotations [])
