-- ===== src/Samples/Rules.antt =====
-- The theorems on the rules of a policy at a server with two versions of a group.
use kausality.Base.{List, [], ◌∷◌, some, ok, ◌≡◌, refl}
use kausality.Policy.Types.{ResourceRule}
use kausality.Policy.Rules.{ApiResourceList, DiscoveryAnswer, expand_resources}

abbrev lists : List ApiResourceList
lists =
    record {
      group_version = "apps/v1";
      api_resources = "deployments" ∷ "deployments/scale" ∷ "daemonsets" ∷ [];
    }
    ∷ record { group_version = "v1"; api_resources = "pods" ∷ [] }
    ∷ record { group_version = "apps/v1beta1"; api_resources = "deployments" ∷ [] }
    ∷ []

abbrev answer : DiscoveryAnswer
answer = record { error = some "metrics.k8s.io is down"; lists = some lists }

abbrev rule : ResourceRule
rule = record { api_groups = "apps" ∷ []; resources = "*" ∷ []; excluded = "daemonsets" ∷ [] }

test-expand : expand_resources answer rule ≡ ok ("deployments" ∷ [])
unfolding expand_resources
test-expand = refl
