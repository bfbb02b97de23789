-- ===== src/Policy/Roles.antt =====
-- pkg/policy/controller.go: what the cluster role of a policy allows.
use kausality.Base.{
  String, Bool, true, false, ◌&&◌, ◌||◌, ◌==◌, List, [], ◌∷◌, any, some, ok, Dict, lookup, ◌≡◌,
  refl, ap, ◌∙◌, Bool-cases, inl, inr, eq_iff,
}
use kausality.Base.Sort.{sort_by, any-sort_by}
use kausality.Policy.Types.{ResourceRule, Kausality, ResourceContext, contains}
use kausality.Policy.Rules.{ApiResourceList, DiscoveryAnswer, unique_from}
use kausality.Policy.Store.{resources_match}
use kausality.Policy.Expansion.{is_served, expand_resources-ok, contains-unique_from}
use kausality.Policy.Webhook.{
  at, append_to, append_groups, group_rules, sorted_groups, PolicyRule, role_rules,
  build_rbac_rules,
}
use kausality.Policy.Coverage.{key, gives, or_none, or_assoc, or_share_right}
use kausality.Policy.Grouping.{contains-append_to, contains-sorted_groups, some-at}
use kausality.Policy.Scope.{gives-resources_match}

contains-append_groups :
    (groups resources : List String) (d : Dict (List String)) (g r : String)
    → contains (at g (append_groups groups resources d)) r
      ≡ (contains (at g d) r || (contains groups g && contains resources r))
unfolding append_groups
contains-append_groups [] resources d g r = or_none (contains (at g d) r)
contains-append_groups (h ∷ groups) resources d g r =
    contains-append_groups groups resources (append_to h resources d) g r
    ∙ ap (λ b. b || (contains groups g && contains resources r))
        (contains-append_to h g r resources d)
    ∙ or_share_right (contains (at g d) r) (h == g) (contains groups g) (contains resources r)

pub group_rules-ok :
    (answer : DiscoveryAnswer) (lists : List ApiResourceList)
    → answer.lists ≡ some lists
    → (rules : List ResourceRule) (d : Dict (List String))
    → (grouped : Dict (List String)) × (group_rules answer rules d ≡ ok grouped)
      × ((g r : String)
          → contains (at g grouped) r ≡ (contains (at g d) r || any (gives lists (key g r)) rules))
unfolding group_rules
group_rules-ok answer lists listed [] d = (d, refl, λ g r. or_none (contains (at g d) r))
group_rules-ok answer lists listed (rule ∷ rules) d =
    let (found, (expanded, found-contains)) = expand_resources-ok answer lists rule listed in
    let (grouped, done, grouped-contains) =
      group_rules-ok answer lists listed rules (append_groups rule.api_groups found d) in
    (
      grouped,
      rw (expanded, group_rules) done,
      λ g r.
          grouped-contains g r
          ∙ ap (λ b. b || any (gives lists (key g r)) rules)
              (contains-append_groups rule.api_groups found d g r
                ∙ ap (λ b. contains (at g d) r || (contains rule.api_groups g && b))
                    (found-contains r))
          ∙ or_assoc (contains (at g d) r) (gives lists (key g r) rule)
              (any (gives lists (key g r)) rules),
    )

-- RBAC allows the verb on the resource.
abbrev pub allows : String → String → String → List PolicyRule → Bool
allows verb g r rules =
    any (λ p. contains p.verbs verb && (contains p.api_groups g && contains p.resources r)) rules

abbrev pub read_verbs : List String
read_verbs = "get" ∷ "list" ∷ "watch" ∷ []

abbrev pub write_verbs : List String
write_verbs = "update" ∷ "patch" ∷ []

two_rules : (a u x c : Bool) → ((a && x) || ((u && x) || (c && ((a || u) && x)))) ≡ ((a || u) && x)
two_rules true u true c = refl
two_rules true true false true = refl
two_rules true true false false = refl
two_rules true false false true = refl
two_rules true false false false = refl
two_rules false true true c = refl
two_rules false true false true = refl
two_rules false true false false = refl
two_rules false false x true = refl
two_rules false false x false = refl

pass_by : (a u x c p : Bool) → ((a && (false && x)) || ((u && (false && x)) || (c && p))) ≡ (c && p)
pass_by true true x c p = refl
pass_by true false x c p = refl
pass_by false true x c p = refl
pass_by false false x c p = refl

allows-role_rules :
    (verb r : String) (d : Dict (List String)) (groups : List String) (g : String)
    → allows verb g r (role_rules d groups) ≡ (
        contains groups g
        && ((contains read_verbs verb || contains write_verbs verb) && contains (at g d) r))
unfolding role_rules
allows-role_rules verb r d [] g = refl
allows-role_rules verb r d (h ∷ groups) g =
    let a = contains read_verbs verb in
    let u = contains write_verbs verb in
    let sorted = sort_by (λ x. x) (unique_from [] (at h d)) in
    ap
      (λ b.
        (a && (((h == g) || false) && contains sorted r))
        || ((u && (((h == g) || false) && contains sorted r)) || b))
      (allows-role_rules verb r d groups g)
    ∙ elim (Bool-cases (h == g)) [
      | inr e ↦
          rw e
            (pass_by a u (contains sorted r) (contains groups g) ((a || u) && contains (at g d) r))
      | inl e ↦
          let here : contains sorted r ≡ contains (at g d) r =
            any-sort_by (λ x. x) (λ x. x == r) (unique_from [] (at h d))
            ∙ contains-unique_from [] (at h d) r
            ∙ ap (λ x. contains (at x d) r) ((eq_iff h g).0 e) in
          rw e (
            ap
              (λ x.
                (a && x) || ((u && x) || (contains groups g && ((a || u) && contains (at g d) r))))
              here
            ∙ two_rules a u (contains (at g d) r) (contains groups g))
    ]

and_false : (b : Bool) → (b && false) ≡ false
and_false true = refl
and_false false = refl

-- Where discovery lists resources, `buildRBACRules` succeeds. For a resource that the server lists in
-- a group and that is no subresource, the role of a policy then allows a get, list, watch, update or
-- patch exactly when the policy's resource rules match it.
pub build_rbac_rules-allows :
    {L : Type 0} (answer : DiscoveryAnswer) (lists : List ApiResourceList) (policy : Kausality L)
    (verb : String) (ctx : ResourceContext)
    → answer.lists ≡ some lists
    → (contains read_verbs verb || contains write_verbs verb) ≡ true
    → is_served lists ctx.resource ctx.group ≡ true
    → (rules : List PolicyRule) × (build_rbac_rules answer policy ≡ ok rules)
      × (allows verb ctx.group ctx.resource rules ≡ resources_match policy.spec.resources ctx)
unfolding build_rbac_rules lookup
build_rbac_rules-allows answer lists policy verb ctx listed known served =
    let (grouped, done, grouped-contains) =
      group_rules-ok answer lists listed policy.spec.resources [] in
    let verbs = contains read_verbs verb || contains write_verbs verb in
    (
      role_rules grouped (sorted_groups grouped),
      rw (done, build_rbac_rules) refl,
      allows-role_rules verb ctx.resource grouped (sorted_groups grouped) ctx.group
          ∙ ap (λ b. b && (verbs && contains (at ctx.group grouped) ctx.resource))
              (contains-sorted_groups grouped ctx.group)
          ∙ some-at grouped ctx.group (λ xs. verbs && contains xs ctx.resource) (and_false verbs)
          ∙ ap (λ b. b && contains (at ctx.group grouped) ctx.resource) known
          ∙ grouped-contains ctx.group ctx.resource
          ∙ gives-resources_match lists ctx policy.spec.resources served,
    )
