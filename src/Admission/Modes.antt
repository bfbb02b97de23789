-- ===== src/Admission/Modes.antt =====
-- pkg/admission/handler.go: `kindToResource`, and the two sources of `resolveMode`.
use Prim.Native.String.{◌++◌}
use kausality.Base.{String, Bool, ◌||◌, if◌then◌else◌, List, Option, Dict}
use kausality.Base.Letters.{to_lower, has_suffix}
use kausality.Kube.{Object}
use kausality.Policy.Types.{Kausality}
use kausality.Policy.Resolution.{resolve_mode}
use kausality.Config.{Config, resolve_mode_with_annotations}

unfoldable pub kind_to_resource : String → String
unfolding to_lower has_suffix
kind_to_resource kind =
    let lower = to_lower kind in
    if has_suffix "s" lower
      || (has_suffix "x" lower || (has_suffix "ch" lower || has_suffix "sh" lower))
    then lower ++ "es"
    else lower ++ "s"

module _ {L : Type 0} (selects : L → Dict String → Option Bool) where
  unfoldable pub mode_by_policies :
      List (Kausality L) → Object → Dict String → Dict String → Dict String → String
  unfolding kind_to_resource resolve_mode
  mode_by_policies policies o namespace_labels object_annotations namespace_annotations =
      resolve_mode selects policies
        (record {
          group = o.group;
          version = o.version;
          resource = kind_to_resource o.kind;
          namespace = o.namespace;
          namespace_labels = namespace_labels;
          object_labels = o.labels;
        })
        object_annotations namespace_annotations

  unfoldable pub mode_by_config :
      Config L → Object → Dict String → Dict String → Dict String → String
  unfolding resolve_mode_with_annotations
  mode_by_config config o namespace_labels object_annotations namespace_annotations =
      resolve_mode_with_annotations selects config object_annotations namespace_annotations
        (record {
          group = o.group;
          kind = o.kind;
          namespace = o.namespace;
          object_labels = o.labels;
          namespace_labels = namespace_labels;
        })
