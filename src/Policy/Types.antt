-- ===== src/Policy/Types.antt =====
-- api/v1alpha1/kausality_types.go and pkg/policy/interface.go. Label selectors belong to
-- apimachinery: `L` is their type, and a matcher for them is an argument of the functions below.
use kausality.Base.{String, ℕ, Bool, ◌==◌, ◌||◌, if◌then◌else◌, List, Option, Dict, any}
use kausality.Kube.{entry}

abbrev pub mode_log : String
mode_log = "log"

abbrev pub mode_enforce : String
mode_enforce = "enforce"

abbrev pub mode_annotation : String
mode_annotation = "kausality.io/mode"

pub record ResourceRule : Type 0 where
  pub api_groups : List String
  pub resources : List String
  pub excluded : List String

pub record NamespaceSelector (L : Type 0) : Type 0 where
  pub names : List String
  pub selector : Option L
  pub excluded : List String

pub record ModeOverride : Type 0 where
  pub api_groups : List String
  pub resources : List String
  pub namespaces : List String
  pub mode : String

pub record KausalitySpec (L : Type 0) : Type 0 where
  pub resources : List ResourceRule
  pub namespaces : Option (NamespaceSelector L)
  pub object_selector : Option L
  pub mode : String
  pub overrides : List ModeOverride

-- The metadata that the program reads, and the specification.
pub record Kausality (L : Type 0) : Type 0 where
  pub name : String
  pub deletion_timestamp : Option ℕ
  pub spec : KausalitySpec L

-- `group` and `resource` are those of the GroupVersionResource.
pub record ResourceContext : Type 0 where
  pub group : String
  pub version : String
  pub resource : String
  pub namespace : String
  pub namespace_labels : Dict String
  pub object_labels : Dict String

unfoldable pub is_valid_mode : String → Bool
is_valid_mode mode = (mode == mode_log) || (mode == mode_enforce)

abbrev pub contains : List String → String → Bool
contains xs x = any (λ y. y == x) xs

-- The annotations' say on the mode, which goes before that of a policy.
unfoldable pub mode_by_annotations : Dict String → Dict String → String → String
unfolding is_valid_mode
mode_by_annotations object_annotations namespace_annotations otherwise =
    let object_mode = entry (Option.some object_annotations) mode_annotation in
    let namespace_mode = entry (Option.some namespace_annotations) mode_annotation in
    if is_valid_mode object_mode
    then object_mode
    else if is_valid_mode namespace_mode
    then namespace_mode
    else otherwise
