-- ===== src/Policy/Expansion.antt =====
-- pkg/policy/controller.go: which resources the expansion of a rule finds.
use Prim.Native.String.{[], ◌∷◌}
use kausality.Base.{
  String, Bool, true, false, not, ◌&&◌, ◌||◌, if◌then◌else◌, List, [], ◌∷◌, any, keep, some, ok,
  ◌==◌, ◌≡◌, refl, sym, ap, ◌∙◌, any-append, eq_iff, Bool-cases, inl, inr,
}
use mathlib.Core.List.{◌++◌ as append}
use mathlib.Core.Bool.{false≢true}
use mathlib.Core.Path.{ap₂}
use kausality.Policy.Types.{ResourceRule, contains}
use kausality.Policy.Rules.{
  ApiResourceList, DiscoveryAnswer, group_of, has_slash, resources_of, unique_from,
  discover_resources, discover_groups, filter_excluded, expand_resources,
}

or_and : (a b c : Bool) → (a ≡ true → c ≡ true) → (a || (b && c)) ≡ ((a || b) && c)
or_and true b c h = sym (h refl)
or_and false b c h = refl

skip_and : (a b c : Bool) → (a ≡ true → c ≡ false) → (b && c) ≡ ((a || b) && c)
skip_and true true c h = refl
skip_and true false c h = sym (h refl)
skip_and false b c h = refl

or_absorb : (s a b : Bool) → (a ≡ true → s ≡ true) → (s || b) ≡ (s || (a || b))
or_absorb true a b h = refl
or_absorb false true b h = absurd (false≢true (h refl))
or_absorb false false b h = refl

or_under : (s a u b : Bool) → ((a || s) || u) ≡ ((a || s) || b) → (s || (a || u)) ≡ (s || (a || b))
or_under true a u b h = refl
or_under false true u b h = refl
or_under false false u b h = h

pub contains-keep :
    (p : String → Bool) (xs : List String) (r : String)
    → contains (keep p xs) r ≡ (contains xs r && p r)
contains-keep p [] r = refl
contains-keep p (x ∷ xs) r = elim (Bool-cases (p x)) [
  | inl e ↦ rw e (
      ap (λ b. (x == r) || b) (contains-keep p xs r)
      ∙ or_and (x == r) (contains xs r) (p r) (λ q. ap p (sym ((eq_iff x r).0 q)) ∙ e))
  | inr e ↦ rw e (
      contains-keep p xs r
      ∙ skip_and (x == r) (contains xs r) (p r) (λ q. ap p (sym ((eq_iff x r).0 q)) ∙ e))
]

pub contains-unique_from :
    (seen xs : List String) (r : String)
    → (contains seen r || contains (unique_from seen xs) r) ≡ (contains seen r || contains xs r)
unfolding unique_from
contains-unique_from seen [] r = refl
contains-unique_from seen (x ∷ xs) r = elim (Bool-cases (contains seen x)) [
  | inl e ↦ rw e (
      contains-unique_from seen xs r
      ∙ or_absorb (contains seen r) (x == r) (contains xs r)
          (λ q. ap (contains seen) (sym ((eq_iff x r).0 q)) ∙ e))
  | inr e ↦ rw e (
      or_under (contains seen r) (x == r) (contains (unique_from (x ∷ seen) xs) r) (contains xs r)
        (contains-unique_from (x ∷ seen) xs r))
]

-- A list of the server has the resource in the group, and it is no subresource.
abbrev pub is_served : List ApiResourceList → String → String → Bool
is_served lists r group =
    any (λ l. (group_of l.group_version == group) && contains l.api_resources r) lists
    && not (has_slash r)

and_or : (a b c : Bool) → ((a && c) || (b && c)) ≡ ((a || b) && c)
and_or true b true = refl
and_or true true false = refl
and_or true false false = refl
and_or false b c = refl

contains-resources_of :
    (group : String) (lists : List ApiResourceList) (r : String)
    → contains (resources_of group lists) r ≡ is_served lists r group
unfolding resources_of
contains-resources_of group [] r = refl
contains-resources_of group (l ∷ lists) r = elim (Bool-cases (group_of l.group_version == group)) [
  | inl e ↦
      rw
        (
          e,
          any-append (λ y. y == r) (keep (λ name. not (has_slash name)) l.api_resources)
              (resources_of group lists),
          contains-keep (λ name. not (has_slash name)) l.api_resources r,
          contains-resources_of group lists r,
        )
        (and_or (contains l.api_resources r) _ (not (has_slash r)))
  | inr e ↦ rw e (contains-resources_of group lists r)
]

-- What `discoverGroups` answers where the server has listed resources.
discover_groups-ok :
    (answer : DiscoveryAnswer) (lists : List ApiResourceList) (groups : List String)
    → answer.lists ≡ some lists
    → (found : List String) × ((discover_groups answer groups ≡ ok found)
        × ((r : String) → contains found r ≡ any (is_served lists r) groups))
unfolding discover_groups discover_resources
discover_groups-ok answer lists [] e = ([], (refl, λ r. refl))
discover_groups-ok answer lists (group ∷ groups) e =
    let (more, (found_more, more-contains)) = discover_groups-ok answer lists groups e in
    let here = unique_from [] (resources_of group lists) in
    (
      append here more,
      (
        rw (e, found_more, discover_groups) refl,
        λ r.
            any-append (λ y. y == r) here more
            ∙ ap₂ ◌||◌
                (contains-unique_from [] (resources_of group lists) r
                  ∙ contains-resources_of group lists r)
                (more-contains r),
      ),
    )

and_true : (b : Bool) → b ≡ (b && true)
and_true true = refl
and_true false = refl

contains-filter_excluded :
    (resources excluded : List String) (r : String)
    → contains (filter_excluded resources excluded) r
      ≡ (contains resources r && not (contains excluded r))
unfolding filter_excluded
contains-filter_excluded resources [] r = and_true (contains resources r)
contains-filter_excluded resources (e ∷ excluded) r =
    contains-keep (λ x. not (contains (e ∷ excluded) x)) resources r

-- Where the server has listed resources, with an error or not, `expandResources` succeeds. It finds
-- the resources that the rule names, or, if the rule has a wildcard, those that the server lists in
-- a group of the rule and that are no subresources; in both cases without those that the rule
-- excludes.
pub expand_resources-ok :
    (answer : DiscoveryAnswer) (lists : List ApiResourceList) (rule : ResourceRule)
    → answer.lists ≡ some lists
    → (found : List String) × ((expand_resources answer rule ≡ ok found)
        × ((r : String)
            → contains found r ≡ (
                (if contains rule.resources "*"
                  then any (is_served lists r) rule.api_groups
                  else contains rule.resources r)
                && not (contains rule.excluded r))))
unfolding expand_resources
expand_resources-ok answer lists rule e = elim (Bool-cases (contains rule.resources "*")) [
  | inr plain ↦
      rw (plain, expand_resources)
        (
          filter_excluded rule.resources rule.excluded,
          (refl, contains-filter_excluded rule.resources rule.excluded),
        )
  | inl wildcard ↦
      let (all, (found_all, all-contains)) = discover_groups-ok answer lists rule.api_groups e in
      rw (wildcard, found_all, expand_resources)
        (
          filter_excluded all rule.excluded,
          (
            refl,
            λ r.
                contains-filter_excluded all rule.excluded r
                ∙ ap (λ b. b && not (contains rule.excluded r)) (all-contains r),
          ),
        )
]
