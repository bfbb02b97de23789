-- ===== src/Policy/Webhook.antt =====
-- pkg/policy/controller.go: the rules of the webhook and of a policy's cluster role.
use Prim.Native.String.{◌++◌}
use kausality.Base.{
  String, Bool, ◌&&◌, ◌==◌, if◌then◌else◌, List, [], ◌∷◌, any, map, is_some, option_or, Result, ok,
  err, Dict, lookup, insert,
}
use kausality.Base.Sort.{sort_by}
use mathlib.Core.List.{◌++◌ as append}
use kausality.Policy.Types.{ResourceRule, Kausality}
use kausality.Policy.Rules.{DiscoveryAnswer, expand_resources, unique_from}

pub record ResourceKey : Type 0 where
  pub api_group : String
  pub resource : String

abbrev pub is_key : ResourceKey → ResourceKey → Bool
is_key a b = (a.api_group == b.api_group) && (a.resource == b.resource)

-- `if !seen[key] { seen[key] = true; allResources = append(allResources, key) }`: the keys seen are
-- those of the list.
unfoldable pub add_key : List ResourceKey → ResourceKey → List ResourceKey
add_key all key = if any (λ k. is_key k key) all then all else append all (key ∷ [])

unfoldable pub add_resources : String → List String → List ResourceKey → List ResourceKey
unfolding add_key
add_resources group [] all = all
add_resources group (r ∷ resources) all =
    add_resources group resources (add_key all (record { api_group = group; resource = r }))

unfoldable pub add_groups : List String → List String → List ResourceKey → List ResourceKey
unfolding add_resources
add_groups [] resources all = all
add_groups (g ∷ groups) resources all = add_groups groups resources (add_resources g resources all)

-- The rules of one policy.
unfoldable pub add_rules :
    DiscoveryAnswer → List ResourceRule → List ResourceKey → Result (List ResourceKey)
unfolding expand_resources add_groups
add_rules answer [] all = ok all
add_rules answer (rule ∷ rules) all = elim (expand_resources answer rule) [
  | err e ↦ err e
  | ok resources ↦ add_rules answer rules (add_groups rule.api_groups resources all)
]

unfoldable pub add_policies :
    {L : Type 0}
    → DiscoveryAnswer
    → List (Kausality L)
    → List ResourceKey
    → Result (List ResourceKey)
unfolding add_rules
add_policies answer [] all = ok all
add_policies answer (p ∷ policies) all =
    let skipped = add_policies answer policies all in
    if is_some p.deletion_timestamp then skipped else elim (add_rules answer p.spec.resources all) [
      | err e ↦ err ("failed to expand resources for policy \"" ++ (p.name ++ ("\": " ++ e)))
      | ok more ↦ add_policies answer policies more
    ]

-- `grouped[group]`, which is nil on a missing key.
abbrev pub at : String → Dict (List String) → List String
at group grouped = option_or (lookup group grouped) []

-- `grouped[group] = append(grouped[group], resources...)`
unfoldable pub append_to : String → List String → Dict (List String) → Dict (List String)
unfolding insert lookup
append_to group resources grouped = insert group (append (at group grouped) resources) grouped

unfoldable pub group_keys : List ResourceKey → Dict (List String) → Dict (List String)
unfolding append_to
group_keys [] grouped = grouped
group_keys (k ∷ keys) grouped = group_keys keys (append_to k.api_group (k.resource ∷ []) grouped)

-- The groups of the map, sorted.
unfoldable pub sorted_groups : Dict (List String) → List String
unfolding sort_by
sorted_groups grouped = sort_by (λ g. g) (map (λ e. e.0) grouped)

-- RuleWithOperations, without the API versions, which are always "*", and the scope, always all.
pub record WebhookRule : Type 0 where
  pub operations : List String
  pub api_groups : List String
  pub resources : List String

unfoldable pub webhook_rules : Dict (List String) → List String → List WebhookRule
unfolding lookup sort_by
webhook_rules grouped [] = []
webhook_rules grouped (group ∷ groups) =
    let resources = sort_by (λ r. r) (at group grouped) in
    record {
      operations = "CREATE" ∷ "UPDATE" ∷ "DELETE" ∷ [];
      api_groups = group ∷ [];
      resources = resources;
    }
    ∷ record {
      operations = "UPDATE" ∷ [];
      api_groups = group ∷ [];
      resources = map (λ r. r ++ "/status") resources;
    }
    ∷ webhook_rules grouped groups

unfoldable pub aggregate_rules :
    {L : Type 0} → DiscoveryAnswer → List (Kausality L) → Result (List WebhookRule)
unfolding add_policies group_keys sorted_groups webhook_rules
aggregate_rules answer policies = elim (add_policies answer policies []) [
  | err e ↦ err e
  | ok keys ↦ let grouped = group_keys keys [] in ok (webhook_rules grouped (sorted_groups grouped))
]

-- rbacv1.PolicyRule
pub record PolicyRule : Type 0 where
  pub api_groups : List String
  pub resources : List String
  pub verbs : List String

unfoldable pub append_groups : List String → List String → Dict (List String) → Dict (List String)
unfolding append_to
append_groups [] resources grouped = grouped
append_groups (g ∷ groups) resources grouped =
    append_groups groups resources (append_to g resources grouped)

unfoldable pub group_rules :
    DiscoveryAnswer → List ResourceRule → Dict (List String) → Result (Dict (List String))
unfolding expand_resources append_groups
group_rules answer [] grouped = ok grouped
group_rules answer (rule ∷ rules) grouped = elim (expand_resources answer rule) [
  | err e ↦ err ("failed to expand resources: " ++ e)
  | ok resources ↦ group_rules answer rules (append_groups rule.api_groups resources grouped)
]

unfoldable pub role_rules : Dict (List String) → List String → List PolicyRule
unfolding unique_from sort_by lookup
role_rules grouped [] = []
role_rules grouped (group ∷ groups) =
    let resources = sort_by (λ r. r) (unique_from [] (at group grouped)) in
    record { api_groups = group ∷ []; resources = resources; verbs = "get" ∷ "list" ∷ "watch" ∷ [] }
    ∷ record { api_groups = group ∷ []; resources = resources; verbs = "update" ∷ "patch" ∷ [] }
    ∷ role_rules grouped groups

unfoldable pub build_rbac_rules :
    {L : Type 0} → DiscoveryAnswer → Kausality L → Result (List PolicyRule)
unfolding group_rules sorted_groups role_rules
build_rbac_rules answer policy = elim (group_rules answer policy.spec.resources []) [
  | err e ↦ err e
  | ok grouped ↦ ok (role_rules grouped (sorted_groups grouped))
]
