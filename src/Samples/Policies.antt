-- ===== src/Samples/Policies.antt =====
-- The theorems on policies at two policies for one namespace, label selectors being texts that
-- select the objects which carry the label.
use kausality.Base.Sort.{IsSorted}
use mathlib.Core.List.{Perm}
use kausality.Base.{
  ◌⊎◌, ◌||◌, ◌==◌, if◌then◌else◌, String, Bool, List, [], ◌∷◌, Option, none, some, is_some, Dict,
  lookup, ◌≡◌, refl,
}
use kausality.Policy.Types.{Kausality, ResourceContext, is_valid_mode, mode_annotation}
use kausality.Policy.Store.{is_tracked}
use kausality.Policy.Resolution.{best_policy, resolve_mode, refresh}
use kausality.Policy.Best.{Chosen}
use kausality.Policy.Precedence.{
  annotated, Given, policy_name, live, best_policy-refresh, is_tracked-best_policy,
  resolve_mode_lem,
}

abbrev selects : String → Dict String → Option Bool
selects label labels = some (is_some (lookup label labels))

abbrev all_apps : Kausality String
all_apps = record {
  name = "all-apps";
  deletion_timestamp = none;
  spec = record {
    resources = record { api_groups = "apps" ∷ []; resources = "*" ∷ []; excluded = [] } ∷ [];
    namespaces = none;
    object_selector = none;
    mode = "log";
    overrides = [];
  };
}

abbrev shop : Kausality String
shop = record {
  name = "shop";
  deletion_timestamp = none;
  spec = record {
    resources =
        record { api_groups = "apps" ∷ []; resources = "deployments" ∷ []; excluded = [] } ∷ [];
    namespaces = some (record { names = "shop" ∷ []; selector = none; excluded = [] });
    object_selector = none;
    mode = "enforce";
    overrides = [];
  };
}

abbrev ctx : ResourceContext
ctx = record {
  group = "apps";
  version = "v1";
  resource = "deployments";
  namespace = "shop";
  namespace_labels = [];
  object_labels = [];
}

abbrev policies : List (Kausality String)
policies = all_apps ∷ shop ∷ []

best_policy-refresh_example :
    IsSorted policy_name (refresh (shop ∷ all_apps ∷ []))
    × Perm (refresh (shop ∷ all_apps ∷ [])) (live (shop ∷ all_apps ∷ []))
    × Chosen selects ctx
        (refresh (shop ∷ all_apps ∷ []))
        (best_policy selects ctx (refresh (shop ∷ all_apps ∷ [])))
best_policy-refresh_example = best_policy-refresh selects ctx (shop ∷ all_apps ∷ [])

is_tracked-best_policy_example :
    is_tracked selects ctx policies ≡ is_some (best_policy selects ctx policies)
is_tracked-best_policy_example = is_tracked-best_policy selects ctx policies

resolve_mode_lem_example :
    let namespace : Dict String = (mode_annotation, "off") ∷ [] in
    let mode = resolve_mode selects policies ctx [] namespace in
    ((mode ≡ "log") ⊎ (mode ≡ "enforce"))
    × (best : Option (Kausality String)) × (given : String) × Chosen selects ctx policies best
    × Given selects ctx best given
    × (mode ≡ (
        if (annotated [] == "log") || (annotated [] == "enforce")
        then annotated []
        else if (annotated namespace == "log") || (annotated namespace == "enforce")
        then annotated namespace
        else given))
unfolding is_valid_mode
resolve_mode_lem_example =
    resolve_mode_lem selects ctx policies [] ((mode_annotation, "off") ∷ [])
      ((refl, tt), ((refl, tt), tt))

-- The policy with the namespace's name wins, wherever it stands.
resolve_mode_test :
    (resolve_mode selects policies ctx [] [] ≡ "enforce")
    × (resolve_mode selects (shop ∷ all_apps ∷ []) ctx [] [] ≡ "enforce")
unfolding resolve_mode lookup
resolve_mode_test = (refl, refl)
