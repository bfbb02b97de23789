-- ===== src/Policy/Store.antt =====
-- pkg/policy/store.go: which policy applies to a resource, and the mode that it sets.
use kausality.Base.{
  String, ℕ, ◌+◌, Bool, true, false, not, ◌==◌, ◌||◌, ◌&&◌, if◌then◌else◌, List, [], ◌∷◌, is_empty,
  any, Option, none, some, option_or, Dict,
}
use kausality.Policy.Types.{
  ResourceRule, NamespaceSelector, ModeOverride, Kausality, ResourceContext, contains,
}

unfoldable pub rule_matches : ResourceRule → ResourceContext → Bool
rule_matches rule ctx =
    if not (contains rule.api_groups ctx.group)
    then false
    else if not (any (λ r. (r == "*") || (r == ctx.resource)) rule.resources)
    then false
    else not (contains rule.excluded ctx.resource)

unfoldable pub resources_match : List ResourceRule → ResourceContext → Bool
unfolding rule_matches
resources_match rules ctx = any (λ rule. rule_matches rule ctx) rules

-- The score of one resource rule: ten for each pair of an equal group and an equal resource.
unfoldable pub resource_score : ResourceContext → List String → ℕ
resource_score ctx [] = 0
resource_score ctx (r ∷ resources) =
    (if r == ctx.resource then 10 else 0) + resource_score ctx resources

unfoldable pub group_score : ResourceContext → List String → List String → ℕ
unfolding resource_score
group_score ctx resources [] = 0
group_score ctx resources (g ∷ groups) =
    (if g == ctx.group then resource_score ctx resources else 0) + group_score ctx resources groups

unfoldable pub rules_score : ResourceContext → List ResourceRule → ℕ
unfolding group_score
rules_score ctx [] = 0
rules_score ctx (rule ∷ rules) =
    group_score ctx rule.resources rule.api_groups + rules_score ctx rules

unfoldable pub override_matches : ModeOverride → ResourceContext → Bool
override_matches o ctx =
    if not (is_empty o.api_groups) && not (contains o.api_groups ctx.group)
    then false
    else if not (is_empty o.resources) && not (contains o.resources ctx.resource)
    then false
    else if not (is_empty o.namespaces) && not (contains o.namespaces ctx.namespace)
    then false
    else true

-- `resolveOverrides` on the overrides and the policy's own mode.
unfoldable pub first_override : List ModeOverride → ResourceContext → String → String
unfolding override_matches
first_override [] ctx mode = mode
first_override (o ∷ overrides) ctx mode =
    if override_matches o ctx then o.mode else first_override overrides ctx mode

-- `selects` gives the verdict of a label selector on labels, or `none` for an invalid selector.
module _ {L : Type 0} (selects : L → Dict String → Option Bool) where
  unfoldable pub namespaces_match : Option (NamespaceSelector L) → ResourceContext → Bool
  namespaces_match none ctx = true
  namespaces_match (some s) ctx =
      if contains s.excluded ctx.namespace
      then false
      else if not (is_empty s.names)
      then contains s.names ctx.namespace
      else elim s.selector [
        | none ↦ true
        | some l ↦ option_or (selects l ctx.namespace_labels) false
      ]

  unfoldable pub object_selector_matches : Option L → ResourceContext → Bool
  object_selector_matches none ctx = true
  object_selector_matches (some l) ctx = option_or (selects l ctx.object_labels) false

  unfoldable pub policy_matches : ResourceContext → Kausality L → Bool
  unfolding resources_match namespaces_match object_selector_matches
  policy_matches ctx policy =
      if not (resources_match policy.spec.resources ctx)
      then false
      else if not (namespaces_match policy.spec.namespaces ctx)
      then false
      else object_selector_matches policy.spec.object_selector ctx

  unfoldable pub is_tracked : ResourceContext → List (Kausality L) → Bool
  unfolding policy_matches
  is_tracked ctx policies = any (policy_matches ctx) policies
