-- ===== src/Policy/Resolution.antt =====
-- pkg/policy/store.go: the specificity of a policy, the mode of a resource, and the reload of the
-- policies. `pkg/policy/interface.go`: the resolver with fixed answers.
use kausality.Base.{
  String, ℕ, ◌+◌, ltb, Bool, not, if◌then◌else◌, List, [], ◌∷◌, is_empty, keep, Option, none, some,
  is_some, Dict, Result, ok, err,
}
use kausality.Base.Sort.{sort_by}
use kausality.Policy.Types.{
  NamespaceSelector, Kausality, ResourceContext, mode_log, mode_by_annotations,
}
use kausality.Policy.Store.{policy_matches, rules_score, first_override}

unfoldable pub namespace_score : {L : Type 0} → Option (NamespaceSelector L) → ℕ
namespace_score none = 0
namespace_score (some s) =
    if not (is_empty s.names) then 100 else if is_some s.selector then 50 else 0

unfoldable pub calculate_specificity : {L : Type 0} → Kausality L → ResourceContext → ℕ
unfolding namespace_score rules_score
calculate_specificity policy ctx =
    namespace_score policy.spec.namespaces
    + rules_score ctx policy.spec.resources
    + (if is_some policy.spec.object_selector then 5 else 0)

-- The policies of a store that is loaded anew from `items`: those that are not being deleted, by
-- name.
unfoldable pub refresh : {L : Type 0} → List (Kausality L) → List (Kausality L)
unfolding sort_by
refresh items = sort_by (λ p. p.name) (keep (λ p. not (is_some p.deletion_timestamp)) items)

-- `Refresh` on the answer of the API server: the policies stay when the server fails.
unfoldable pub refresh_from :
    {L : Type 0} → Result (List (Kausality L)) → List (Kausality L) → List (Kausality L)
unfolding refresh
refresh_from (ok items) policies = refresh items
refresh_from (err e) policies = policies

-- `Watcher.Reconcile` and `OnChange`: the error, and the store.
unfoldable pub watch :
    {L : Type 0}
    → Result (List (Kausality L))
    → List (Kausality L)
    → Option String × List (Kausality L)
unfolding refresh_from
watch answer policies =
    (elim answer [ ok items ↦ none | err e ↦ some e ], refresh_from answer policies)

-- `Store.Update` takes the policies as they are.
unfoldable pub update_store :
    {L : Type 0} → List (Kausality L) → List (Kausality L) → List (Kausality L)
update_store items policies = items

module _ {L : Type 0} (selects : L → Dict String → Option Bool) where
  -- The best policy and its score after the loop over `policies`, from the best one so far.
  unfoldable pub best_from :
      ResourceContext → Option (Kausality L) → ℕ → List (Kausality L) → Option (Kausality L)
  unfolding policy_matches calculate_specificity
  best_from ctx best score [] = best
  best_from ctx best score (policy ∷ policies) =
      let specificity = calculate_specificity policy ctx in
      let skipped = best_from ctx best score policies in
      let taken = best_from ctx (some policy) specificity policies in
      if not (policy_matches selects ctx policy)
      then skipped
      else if not (is_some best)
      then taken
      else if ltb score specificity
      then taken
      else skipped

  unfoldable pub best_policy : ResourceContext → List (Kausality L) → Option (Kausality L)
  unfolding best_from
  best_policy ctx policies = best_from ctx none 0 policies

  unfoldable pub mode_of : ResourceContext → Option (Kausality L) → String
  unfolding first_override
  mode_of ctx none = mode_log
  mode_of ctx (some policy) = first_override policy.spec.overrides ctx policy.spec.mode

  unfoldable pub resolve_mode :
      List (Kausality L) → ResourceContext → Dict String → Dict String → String
  unfolding best_policy mode_of mode_by_annotations
  resolve_mode policies ctx object_annotations namespace_annotations =
      mode_by_annotations object_annotations namespace_annotations
        (mode_of ctx (best_policy ctx policies))

-- `StaticResolver`: everything is tracked, under one mode.
pub record StaticResolver : Type 0 where
  pub default_mode : String

unfoldable pub static_resolve_mode :
    StaticResolver → ResourceContext → Dict String → Dict String → String
unfolding mode_by_annotations
static_resolve_mode r ctx object_annotations namespace_annotations =
    mode_by_annotations object_annotations namespace_annotations r.default_mode
