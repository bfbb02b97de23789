-- ===== src/Samples/Reconciles.antt =====
-- The theorems on the policy controller, for a cluster that keeps what it is sent.
use kausality.Base.{String, pos, not, ◌==◌, List, [], ◌∷◌, keep, none, some, ◌≡◌, refl}
use kausality.Policy.Types.{ResourceContext, contains}
use kausality.Policy.Rules.{ApiResourceList}
use kausality.Policy.Reconcile.{
  Answer, done, failed, PolicyObject, Webhook, ClusterRole, PolicyClient, finalizer_name, reconcile,
  map_crd,
}

abbrev lists : List ApiResourceList
lists = record { group_version = "apps/v1"; api_resources = "deployments" ∷ [] } ∷ []

abbrev apps : PolicyObject String
apps = record {
  policy = record {
    name = "apps";
    deletion_timestamp = none;
    spec = record {
      resources = record { api_groups = "apps" ∷ []; resources = "*" ∷ []; excluded = [] } ∷ [];
      namespaces = none;
      object_selector = none;
      mode = "log";
      overrides = [];
    };
  };
  uid = "u1";
  generation = pos 2;
  finalizers = [];
  conditions = [];
}

abbrev gone : PolicyObject String
gone = record apps {
  policy = record apps.policy { deletion_timestamp = some 3 };
  finalizers = finalizer_name ∷ [];
}

abbrev ctx : ResourceContext
ctx = record {
  group = "apps";
  version = "v1";
  resource = "deployments";
  namespace = "shop";
  namespace_labels = [];
  object_labels = [];
}

record Cluster : Type 0 where
  object : PolicyObject String
  first : Webhook
  role : ClusterRole

abbrev first_of : Webhook → List Webhook → Webhook
first_of other [] = other
first_of other (x ∷ xs) = x

abbrev client : PolicyClient String
client = record {
  World = Cluster;
  get_policy = λ w name. done w.object;
  list_policies = λ w. done (w.object.policy ∷ []);
  update_policy = λ w p. done (p, record w { object = p });
  update_status = λ w p. done (record w { object = p });
  discover = λ w. record { error = none; lists = some lists };
  get_webhook = λ w name. done (record { name = name; webhooks = w.first ∷ [] });
  update_webhook = λ w config. done (record w { first = first_of w.first config.webhooks });
  get_role = λ w name. done w.role;
  create_role = λ w role. done (record w { role = role });
  update_role = λ w role. done (record w { role = role });
  contains_finalizer = contains;
  add_finalizer = λ fs f. f ∷ fs;
  remove_finalizer = λ fs f. keep (λ g. not (g == f)) fs;
}

abbrev cluster : PolicyObject String → Cluster
cluster p = record {
  object = p;
  first = record { name = "w"; rules = []; namespace_selector = none };
  role = record { name = "r"; labels = []; owner_name = ""; owner_uid = ""; rules = [] };
}

test-map_crd : map_crd client "w" [] (cluster apps) ≡ "apps" ∷ []
unfolding map_crd
test-map_crd = refl

abbrev excluded : List String
excluded = "kube-system" ∷ []

abbrev finalizers_of : List String → Answer (PolicyObject String × Cluster) → List String
finalizers_of other (failed e) = other
finalizers_of other (done (p, w)) = p.finalizers

unfoldable after : PolicyObject String → Cluster
unfolding reconcile
after p = (reconcile client "w" excluded 7 (cluster p) p.policy.name).1
