-- ===== src/Samples/Configs.antt =====
-- The theorem on the legacy configuration at a file without a default mode.
use kausality.Base.{
  ◌⊎◌, String, Bool, [], ◌∷◌, Option, none, some, is_some, Dict, lookup, ◌≡◌, refl,
}
use kausality.Config.{
  Config, ConfigContext, DriftDetectionOverride, load, resolve_mode_with_annotations, load-valid,
}

abbrev selects : String → Dict String → Option Bool
selects label labels = some (is_some (lookup label labels))

abbrev deployments : DriftDetectionOverride String
deployments = record {
  api_groups = "apps" ∷ [];
  resources = "deployments" ∷ [];
  namespaces = [];
  namespace_selector = none;
  object_selector = none;
  mode = "enforce";
}

abbrev file : Config String
file = record { default_mode = ""; overrides = deployments ∷ [] }

abbrev loaded : Config String
loaded = record { default_mode = "log"; overrides = deployments ∷ [] }

abbrev ctx : ConfigContext
ctx = record {
  group = "apps";
  kind = "Deployment";
  namespace = "shop";
  object_labels = [];
  namespace_labels = [];
}

load-valid_example :
    (resolve_mode_with_annotations selects loaded [] [] ctx ≡ "log")
    ⊎ (resolve_mode_with_annotations selects loaded [] [] ctx ≡ "enforce")
load-valid_example = load-valid selects file loaded [] [] ctx (unfold load in refl)
