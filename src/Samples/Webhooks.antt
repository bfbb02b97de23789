-- ===== src/Samples/Webhooks.antt =====
-- The theorems on the rules of the webhook and of a cluster role, for one policy with a wildcard and
-- one that is being deleted.
use kausality.Base.{String, true, ◌&&◌, List, [], ◌∷◌, any, none, some, ok, ◌≡◌, refl}
use kausality.Policy.Types.{Kausality, ResourceContext}
use kausality.Policy.Rules.{ApiResourceList, DiscoveryAnswer, group_of}
use kausality.Policy.Store.{resources_match}
use kausality.Policy.Resolution.{refresh}
use kausality.Policy.Webhook.{WebhookRule, aggregate_rules, PolicyRule, build_rbac_rules}
use kausality.Policy.Grouping.{covers}
use kausality.Policy.Scope.{aggregate_rules-covers}
use kausality.Policy.Roles.{allows, build_rbac_rules-allows}

abbrev lists : List ApiResourceList
lists =
    record { group_version = "apps/v1"; api_resources = "deployments" ∷ "daemonsets" ∷ [] }
    ∷ record { group_version = "v1"; api_resources = "pods" ∷ [] }
    ∷ []

abbrev answer : DiscoveryAnswer
answer = record { error = none; lists = some lists }

abbrev apps : Kausality String
apps = record {
  name = "apps";
  deletion_timestamp = none;
  spec = record {
    resources =
        record { api_groups = "apps" ∷ []; resources = "*" ∷ []; excluded = "daemonsets" ∷ [] }
        ∷ [];
    namespaces = none;
    object_selector = none;
    mode = "log";
    overrides = [];
  };
}

abbrev gone : Kausality String
gone = record apps { name = "gone"; deletion_timestamp = some 3 }

abbrev ctx : ResourceContext
ctx = record {
  group = "apps";
  version = "v1";
  resource = "deployments";
  namespace = "shop";
  namespace_labels = [];
  object_labels = [];
}

test-aggregate :
    aggregate_rules answer (gone ∷ apps ∷ [])
    ≡ ok (
        record {
          operations = "CREATE" ∷ "UPDATE" ∷ "DELETE" ∷ [];
          api_groups = "apps" ∷ [];
          resources = "deployments" ∷ [];
        }
        ∷ record {
          operations = "UPDATE" ∷ [];
          api_groups = "apps" ∷ [];
          resources = "deployments/status" ∷ [];
        }
        ∷ [])
unfolding aggregate_rules
test-aggregate = refl

aggregate_rules-covers_example :
    (rules : List WebhookRule) × (aggregate_rules answer (gone ∷ apps ∷ []) ≡ ok rules)
    × (covers "DELETE" "apps" "deployments" rules
        ≡ any (λ p. resources_match p.spec.resources ctx) (refresh (gone ∷ apps ∷ [])))
    × ((covers "DELETE" "apps" "deployments" rules
          && covers "UPDATE" "apps" "deployments/status" rules)
        ≡ covers "DELETE" "apps" "deployments" rules)
unfolding group_of
aggregate_rules-covers_example =
    aggregate_rules-covers answer lists (gone ∷ apps ∷ []) "DELETE" ctx refl refl refl

build_rbac_rules-allows_example :
    (rules : List PolicyRule) × (build_rbac_rules answer apps ≡ ok rules)
    × (allows "patch" "apps" "deployments" rules ≡ true)
unfolding group_of resources_match
build_rbac_rules-allows_example =
    build_rbac_rules-allows answer lists apps "patch" ctx refl refl refl
