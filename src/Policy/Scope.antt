-- ===== src/Policy/Scope.antt =====
-- pkg/policy/controller.go with pkg/policy/store.go: the mutations that the API server sends to the
-- webhook, and the resources that the policies of a store match.
use Prim.Native.String.{◌++◌, [], ◌∷◌}
use Prim.Native.Char.{code}
use text.Mathlib.TextLemmas.{nil-append, cons-append}
use mathlib.Core.Bool.{false≢true}
use kausality.Base.{
  String, eqb, Bool, true, false, not, ◌&&◌, ◌||◌, ◌==◌, List, [], ◌∷◌, any, any-keep, any_congr,
  keep, some, is_some, lookup, ok, &&-eq-true, eq_iff, eq_refl, ◌≡◌, refl, sym, ap, ◌∙◌, Bool-cases,
  inl, inr, arith,
}
use kausality.Base.Sort.{any-sort_by}
use kausality.Policy.Types.{ResourceRule, Kausality, ResourceContext, contains}
use kausality.Policy.Rules.{ApiResourceList, DiscoveryAnswer, has_slash}
use kausality.Policy.Store.{rule_matches, resources_match}
use kausality.Policy.Resolution.{refresh}
use kausality.Policy.Expansion.{is_served}
use kausality.Policy.Webhook.{
  ResourceKey, at, group_keys, sorted_groups, WebhookRule, webhook_rules, aggregate_rules,
}
use kausality.Policy.Coverage.{key, has, gives, policy_gives, add_policies-ok}
use kausality.Policy.Grouping.{
  contains-group_keys, contains-sorted_groups, some-at, covers, spec_operations, has_status,
  group_covers, covers-webhook_rules,
}

or_true : (b : Bool) → (b || true) ≡ true
or_true true = refl
or_true false = refl

any-contains :
    (f : String → Bool) (xs : List String) (x : String)
    → contains xs x ≡ true
    → f x ≡ true
    → any f xs ≡ true
any-contains f [] x h k = h
any-contains f (y ∷ xs) x h k = elim (Bool-cases (y == x)) [
  | inl e ↦ rw (ap f ((eq_iff y x).0 e), k) refl
  | inr e ↦ rw (any-contains f xs x (rw e at h) k) (or_true (f y))
]

any_wildcard :
    (rs : List String) (x : String)
    → any (λ r. (r == "*") || (r == x)) rs ≡ (contains rs "*" || contains rs x)
any_wildcard [] x = refl
any_wildcard (r ∷ rs) x = ground (arith, any_wildcard rs x)

-- For a resource that the server lists in the group, the expansion and the store agree on a rule.
gives-rule_matches :
    (lists : List ApiResourceList) (ctx : ResourceContext) (rule : ResourceRule)
    → is_served lists ctx.resource ctx.group ≡ true
    → gives lists (key ctx.group ctx.resource) rule ≡ rule_matches rule ctx
unfolding rule_matches
gives-rule_matches lists ctx rule served = elim (Bool-cases (contains rule.api_groups ctx.group)) [
  | inr other ↦ rw other refl
  | inl named ↦
      let found =
        any-contains (is_served lists ctx.resource) rule.api_groups ctx.group named served in
      elim (Bool-cases (contains rule.resources "*")) [
        | inl wildcard ↦ rw (any_wildcard rule.resources ctx.resource, named, wildcard, found) refl
        | inr plain ↦ rw (any_wildcard rule.resources ctx.resource, named, plain) (ground arith)
      ]
]

pub gives-resources_match :
    (lists : List ApiResourceList) (ctx : ResourceContext) (rules : List ResourceRule)
    → is_served lists ctx.resource ctx.group ≡ true
    → any (gives lists (key ctx.group ctx.resource)) rules ≡ resources_match rules ctx
unfolding resources_match
gives-resources_match lists ctx rules served =
    any_congr (gives lists (key ctx.group ctx.resource)) (λ rule. rule_matches rule ctx)
      (λ rule. gives-rule_matches lists ctx rule served) rules

any-refresh :
    {L : Type 0} (f : Kausality L → Bool) (policies : List (Kausality L))
    → any f (refresh policies) ≡ any (λ p. not (is_some p.deletion_timestamp) && f p) policies
unfolding refresh
any-refresh f policies =
    any-sort_by (λ p. p.name) f (keep (λ p. not (is_some p.deletion_timestamp)) policies)
    ∙ any-keep f (λ p. not (is_some p.deletion_timestamp)) policies

slash-status : (s : String) → has_slash (s ++ "/status") ≡ true
slash-status [] = ap has_slash (nil-append "/status")
slash-status (c ∷ s) =
    ap has_slash (cons-append c s "/status")
    ∙ ap (λ b. eqb (code c) b'/' || b) (slash-status s)
    ∙ or_true (eqb (code c) b'/')

no_status : (r : String) (xs : List String) → has_slash r ≡ false → has_status r xs ≡ false
no_status r [] plain = refl
no_status r (x ∷ xs) plain = elim (Bool-cases ((x ++ "/status") == r)) [
  | inl e ↦ absurd (
      false≢true
        (sym plain ∙ ap has_slash (sym ((eq_iff (x ++ "/status") r).0 e)) ∙ slash-status x))
  | inr e ↦ rw e (no_status r xs plain)
]

served-plain :
    (lists : List ApiResourceList) (r g : String) → is_served lists r g ≡ true → has_slash r ≡ false
served-plain lists r g h = not_true (has_slash r) ((&&-eq-true _ (not (has_slash r))).0 h).1
  where
    not_true : (b : Bool) → not b ≡ true → b ≡ false
    not_true true e = sym e
    not_true false e = refl

no_resources : (a u : Bool) → ((a && false) || (u && false)) ≡ false
no_resources true true = refl
no_resources true false = refl
no_resources false true = refl
no_resources false false = refl

-- The rules of the groups, by what is grouped.
covers-grouped :
    (keys : List ResourceKey) (op g r : String)
    → covers op g r (webhook_rules (group_keys keys []) (sorted_groups (group_keys keys [])))
      ≡ group_covers op r (group_keys keys []) g
covers-grouped keys op g r =
    let grouped = group_keys keys [] in
    covers-webhook_rules op r grouped (sorted_groups grouped) g
    ∙ ap (λ b. b && group_covers op r grouped g) (contains-sorted_groups grouped g)
    ∙ some-at grouped g
        (λ xs.
          (contains spec_operations op && contains xs r)
          || (contains ("UPDATE" ∷ []) op && has_status r xs))
        (no_resources (contains spec_operations op) (contains ("UPDATE" ∷ []) op))

contains-grouped :
    (keys : List ResourceKey) (g r : String)
    → contains (at g (group_keys keys [])) r ≡ has keys (key g r)
unfolding lookup
contains-grouped keys g r = contains-group_keys keys [] g r

and_true_or : (a b u : Bool) → a ≡ true → ((a && b) || (u && false)) ≡ b
and_true_or true true u h = refl
and_true_or true false true h = refl
and_true_or true false false h = refl
and_true_or false b u h = absurd (false≢true h)

and_implied : (b c : Bool) → (b ≡ true → c ≡ true) → (b && c) ≡ b
and_implied true c h = h refl
and_implied false c h = refl

covers-served :
    (lists : List ApiResourceList) (keys : List ResourceKey) (op : String) (ctx : ResourceContext)
    → contains spec_operations op ≡ true
    → is_served lists ctx.resource ctx.group ≡ true
    → covers op ctx.group ctx.resource
        (webhook_rules (group_keys keys []) (sorted_groups (group_keys keys [])))
      ≡ contains (at ctx.group (group_keys keys [])) ctx.resource
covers-served lists keys op ctx known served =
    let named = at ctx.group (group_keys keys []) in
    covers-grouped keys op ctx.group ctx.resource
    ∙ ap
        (λ b.
          (contains spec_operations op && contains named ctx.resource)
          || (contains ("UPDATE" ∷ []) op && b))
        (no_status ctx.resource named (served-plain lists ctx.resource ctx.group served))
    ∙ and_true_or (contains spec_operations op) (contains named ctx.resource)
        (contains ("UPDATE" ∷ []) op) known

status-covers :
    (keys : List ResourceKey) (g r : String)
    → contains (at g (group_keys keys [])) r ≡ true
    → covers "UPDATE" g
        (r ++ "/status")
        (webhook_rules (group_keys keys []) (sorted_groups (group_keys keys [])))
      ≡ true
status-covers keys g r h =
    let named = at g (group_keys keys []) in
    covers-grouped keys "UPDATE" g (r ++ "/status")
    ∙ ap (λ b. contains named (r ++ "/status") || b)
        (any-contains (λ x. (x ++ "/status") == (r ++ "/status")) named r h
          (eq_refl (r ++ "/status")))
    ∙ or_true (contains named (r ++ "/status"))

any-policy_gives :
    {L : Type 0} (lists : List ApiResourceList) (ctx : ResourceContext)
    (policies : List (Kausality L))
    → is_served lists ctx.resource ctx.group ≡ true
    → any (policy_gives lists (key ctx.group ctx.resource)) policies
      ≡ any (λ p. resources_match p.spec.resources ctx) (refresh policies)
any-policy_gives lists ctx policies served =
    any_congr (policy_gives lists (key ctx.group ctx.resource))
      (λ p. not (is_some p.deletion_timestamp) && resources_match p.spec.resources ctx)
      (λ p.
        ap (λ b. not (is_some p.deletion_timestamp) && b)
          (gives-resources_match lists ctx p.spec.resources served))
      policies
    ∙ sym (any-refresh (λ p. resources_match p.spec.resources ctx) policies)

-- Where discovery lists resources, `aggregateRules` succeeds. For a resource that the server lists in
-- a group and that is no subresource, the API server then calls the webhook for a create, an update
-- or a delete exactly when the resource rules of some policy match it, among the policies that the
-- store loads from the same list. In that case the webhook is also called for an update of its
-- status.
pub aggregate_rules-covers :
    {L : Type 0} (answer : DiscoveryAnswer) (lists : List ApiResourceList)
    (policies : List (Kausality L)) (op : String) (ctx : ResourceContext)
    → answer.lists ≡ some lists
    → contains spec_operations op ≡ true
    → is_served lists ctx.resource ctx.group ≡ true
    → (rules : List WebhookRule) × (aggregate_rules answer policies ≡ ok rules)
      × (covers op ctx.group ctx.resource rules
          ≡ any (λ p. resources_match p.spec.resources ctx) (refresh policies))
      × ((covers op ctx.group ctx.resource rules
            && covers "UPDATE" ctx.group (ctx.resource ++ "/status") rules)
          ≡ covers op ctx.group ctx.resource rules)
unfolding aggregate_rules
aggregate_rules-covers answer lists policies op ctx listed known served =
    let (keys, done, keys-has) = add_policies-ok answer lists listed policies [] in
    let grouped = group_keys keys [] in
    let direct = covers-served lists keys op ctx known served in
    (
      webhook_rules grouped (sorted_groups grouped),
      rw (done, aggregate_rules) refl,
      direct
          ∙ contains-grouped keys ctx.group ctx.resource
          ∙ keys-has (key ctx.group ctx.resource)
          ∙ any-policy_gives lists ctx policies served,
      and_implied (covers op ctx.group ctx.resource (webhook_rules grouped (sorted_groups grouped)))
          _ (λ covered. status-covers keys ctx.group ctx.resource (sym direct ∙ covered)),
    )
