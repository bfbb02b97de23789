-- ===== src/Policy/Rules.antt =====
-- pkg/policy/controller.go: the resources that a rule stands for. The answer of the discovery client
-- is an argument; it can have an error and still list resources.
use Prim.Native.Char.{code}
use Prim.Native.String.{◌++◌, [], ◌∷◌}
use kausality.Base.{
  String, eqb, Bool, false, not, ◌||◌, if◌then◌else◌, List, [], ◌∷◌, keep, is_empty, Option, none,
  some, Result, ok, err, ◌==◌,
}
use mathlib.Core.List.{◌++◌ as append}
use kausality.Policy.Types.{ResourceRule, contains}

pub record ApiResourceList : Type 0 where
  pub group_version : String
  pub api_resources : List String

pub record DiscoveryAnswer : Type 0 where
  pub error : Option String
  pub lists : Option (List ApiResourceList)

-- What stands before the first slash.
unfoldable pub before_slash : String → Option String
before_slash [] = none
before_slash (c ∷ s) =
    let rest = before_slash s in
    if eqb (code c) b'/' then some [] else elim rest [ none ↦ none | some g ↦ some (c ∷ g) ]

unfoldable pub group_of : String → String
unfolding before_slash
group_of group_version = elim (before_slash group_version) [ none ↦ "" | some group ↦ group ]

abbrev pub has_slash : String → Bool
has_slash [] = false
has_slash (c ∷ s) = eqb (code c) b'/' || has_slash s

-- The loop over the lists of the server.
unfoldable pub resources_of : String → List ApiResourceList → List String
unfolding group_of
resources_of group [] = []
resources_of group (l ∷ lists) =
    let rest = resources_of group lists in
    if group_of l.group_version == group
    then append (keep (λ name. not (has_slash name)) l.api_resources) rest
    else rest

-- The loop that keeps the first occurrence of a name.
unfoldable pub unique_from : List String → List String → List String
unique_from seen [] = []
unique_from seen (r ∷ resources) =
    let skipped = unique_from seen resources in
    let kept = unique_from (r ∷ seen) resources in if contains seen r then skipped else r ∷ kept

unfoldable pub discover_resources : DiscoveryAnswer → String → Result (List String)
unfolding resources_of unique_from
discover_resources answer group = elim answer.lists [
  | some lists ↦ ok (unique_from [] (resources_of group lists))
  | none ↦ elim answer.error [ some e ↦ err ("discovery failed: " ++ e) | none ↦ ok [] ]
]

-- The loop over the groups of a rule with a wildcard.
unfoldable pub discover_groups : DiscoveryAnswer → List String → Result (List String)
unfolding discover_resources
discover_groups answer [] = ok []
discover_groups answer (group ∷ groups) =
    let rest = discover_groups answer groups in
    elim (discover_resources answer group) [
      | err e ↦ err ("failed to discover resources for group \"" ++ (group ++ ("\": " ++ e)))
      | ok resources ↦ elim rest [ err e ↦ err e | ok more ↦ ok (append resources more) ]
    ]

unfoldable pub filter_excluded : List String → List String → List String
filter_excluded resources excluded =
    if is_empty excluded then resources else keep (λ r. not (contains excluded r)) resources

unfoldable pub expand_resources : DiscoveryAnswer → ResourceRule → Result (List String)
unfolding discover_groups filter_excluded
expand_resources answer rule =
    if not (contains rule.resources "*")
    then ok (filter_excluded rule.resources rule.excluded)
    else elim (discover_groups answer rule.api_groups) [
      | err e ↦ err e
      | ok resources ↦ ok (filter_excluded resources rule.excluded)
    ]
