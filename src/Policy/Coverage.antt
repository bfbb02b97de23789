-- ===== src/Policy/Coverage.antt =====
-- pkg/policy/controller.go: what the webhook's rules hold, in terms of the rules of the policies.
use kausality.Base.{
  String, Bool, true, false, not, ◌&&◌, ◌||◌, ◌==◌, if◌then◌else◌, List, [], ◌∷◌, any, some,
  is_some, ok, &&-eq-true, any-append, eq_iff, ◌≡◌, refl, sym, ap, ◌∙◌, Bool-cases, inl, inr,
}
use kausality.Policy.Types.{ResourceRule, Kausality, contains}
use kausality.Policy.Rules.{ApiResourceList, DiscoveryAnswer}
use kausality.Policy.Expansion.{is_served, expand_resources-ok}
use kausality.Policy.Webhook.{
  ResourceKey, is_key, add_key, add_resources, add_groups, add_rules, add_policies,
}

abbrev pub key : String → String → ResourceKey
key group resource = record { api_group = group; resource = resource }

abbrev pub has : List ResourceKey → ResourceKey → Bool
has keys x = any (λ k. is_key k x) keys

is_key-eq : (a b : ResourceKey) → is_key a b ≡ true → a ≡ b
is_key-eq a b h =
    let parts = &&-eq-true (a.api_group == b.api_group) (a.resource == b.resource) in
    let group = (eq_iff a.api_group b.api_group).0 (parts.0 h).0 in
    let resource = (eq_iff a.resource b.resource).0 (parts.0 h).1 in
    λ i. record { api_group = group i; resource = resource i }

or_known : (s a : Bool) → (a ≡ true → s ≡ true) → s ≡ (s || a)
or_known true a h = refl
or_known false true h = h refl
or_known false false h = refl

pub or_none : (s : Bool) → s ≡ (s || false)
or_none true = refl
or_none false = refl

pub or_and_false : (s a : Bool) → s ≡ (s || (a && false))
or_and_false true a = refl
or_and_false false true = refl
or_and_false false false = refl

pub or_assoc : (a b c : Bool) → ((a || b) || c) ≡ (a || (b || c))
or_assoc true b c = refl
or_assoc false b c = refl

pub or_share : (s a b c : Bool) → ((s || (a && b)) || (a && c)) ≡ (s || (a && (b || c)))
or_share true a b c = refl
or_share false true b c = refl
or_share false false b c = refl

pub or_share_right : (s a b c : Bool) → ((s || (a && c)) || (b && c)) ≡ (s || ((a || b) && c))
or_share_right true a b c = refl
or_share_right false true true true = refl
or_share_right false true true false = refl
or_share_right false true false true = refl
or_share_right false true false false = refl
or_share_right false false b c = refl

has-add_key :
    (all : List ResourceKey) (k x : ResourceKey) → has (add_key all k) x ≡ (has all x || is_key k x)
unfolding add_key
has-add_key all k x = elim (Bool-cases (has all k)) [
  | inl seen ↦
      rw seen (or_known (has all x) (is_key k x) (λ h. ap (has all) (sym (is_key-eq k x h)) ∙ seen))
  | inr new ↦ rw new (
      any-append (λ y. is_key y x) all (k ∷ [])
      ∙ ap (λ b. has all x || b) (sym (or_none (is_key k x))))
]

has-add_resources :
    (group : String) (resources : List String) (all : List ResourceKey) (x : ResourceKey)
    → has (add_resources group resources all) x
      ≡ (has all x || ((group == x.api_group) && contains resources x.resource))
unfolding add_resources
has-add_resources group [] all x = or_and_false (has all x) (group == x.api_group)
has-add_resources group (r ∷ resources) all x =
    has-add_resources group resources (add_key all (key group r)) x
    ∙ ap (λ b. b || ((group == x.api_group) && contains resources x.resource))
        (has-add_key all (key group r) x)
    ∙ or_share (has all x) (group == x.api_group) (r == x.resource) (contains resources x.resource)

has-add_groups :
    (groups resources : List String) (all : List ResourceKey) (x : ResourceKey)
    → has (add_groups groups resources all) x
      ≡ (has all x || (contains groups x.api_group && contains resources x.resource))
unfolding add_groups
has-add_groups [] resources all x = or_none (has all x)
has-add_groups (g ∷ groups) resources all x =
    has-add_groups groups resources (add_resources g resources all) x
    ∙ ap (λ b. b || (contains groups x.api_group && contains resources x.resource))
        (has-add_resources g resources all x)
    ∙ or_share_right (has all x) (g == x.api_group) (contains groups x.api_group)
        (contains resources x.resource)

-- The rule names the group, and its expansion has the resource.
abbrev pub gives : List ApiResourceList → ResourceKey → ResourceRule → Bool
gives lists x rule =
    contains rule.api_groups x.api_group
    && ((if contains rule.resources "*"
          then any (is_served lists x.resource) rule.api_groups
          else contains rule.resources x.resource)
        && not (contains rule.excluded x.resource))

abbrev pub policy_gives : {L : Type 0} → List ApiResourceList → ResourceKey → Kausality L → Bool
policy_gives lists x p = not (is_some p.deletion_timestamp) && any (gives lists x) p.spec.resources

module _ (answer : DiscoveryAnswer) (lists : List ApiResourceList)
    (listed : answer.lists ≡ some lists) where
  add_rules-ok :
      (rules : List ResourceRule) (all : List ResourceKey)
      → (keys : List ResourceKey) × (add_rules answer rules all ≡ ok keys)
        × ((x : ResourceKey) → has keys x ≡ (has all x || any (gives lists x) rules))
  unfolding add_rules
  add_rules-ok [] all = (all, refl, λ x. or_none (has all x))
  add_rules-ok (rule ∷ rules) all =
      let (found, (expanded, found-contains)) = expand_resources-ok answer lists rule listed in
      let (keys, done, keys-has) = add_rules-ok rules (add_groups rule.api_groups found all) in
      (
        keys,
        rw (expanded, add_rules) done,
        λ x.
            keys-has x
            ∙ ap (λ b. b || any (gives lists x) rules)
                (has-add_groups rule.api_groups found all x
                  ∙ ap (λ b. has all x || (contains rule.api_groups x.api_group && b))
                      (found-contains x.resource))
            ∙ or_assoc (has all x) (gives lists x rule) (any (gives lists x) rules),
      )

  pub add_policies-ok :
      {L : Type 0} (policies : List (Kausality L)) (all : List ResourceKey)
      → (keys : List ResourceKey) × (add_policies answer policies all ≡ ok keys)
        × ((x : ResourceKey) → has keys x ≡ (has all x || any (policy_gives lists x) policies))
  unfolding add_policies
  add_policies-ok [] all = (all, refl, λ x. or_none (has all x))
  add_policies-ok (p ∷ policies) all = elim (Bool-cases (is_some p.deletion_timestamp)) [
    | inl gone ↦
        let (keys, done, keys-has) = add_policies-ok policies all in
        (keys, rw (gone, add_policies) done, λ x. rw gone (keys-has x))
    | inr alive ↦
        let (more, added, more-has) = add_rules-ok p.spec.resources all in
        let (keys, done, keys-has) = add_policies-ok policies more in
        (
          keys,
          rw (alive, added, add_policies) done,
          λ x. rw alive (
              keys-has x
              ∙ ap (λ b. b || any (policy_gives lists x) policies) (more-has x)
              ∙ or_assoc (has all x) (any (gives lists x) p.spec.resources)
                  (any (policy_gives lists x) policies)),
        )
  ]
