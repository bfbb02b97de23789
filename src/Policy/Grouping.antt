-- ===== src/Policy/Grouping.antt =====
-- pkg/policy/controller.go: grouping the resources by their group, and the rules of the groups.
use Prim.Native.String.{◌++◌}
use kausality.Base.{
  String, Bool, true, false, ◌&&◌, ◌||◌, ◌==◌, if◌then◌else◌, List, [], ◌∷◌, any, map, is_some,
  option_or, Dict, lookup, lookup-insert, any-append, eq_iff, ◌≡◌, refl, sym, ap, ◌∙◌, Bool-cases,
  Option-cases, inl, inr, arith,
}
use kausality.Base.Sort.{sort_by, any-sort_by}
use mathlib.Core.List.{◌++◌ as append}
use mathlib.Core.Path.{ap₂}
use kausality.Policy.Types.{contains}
use kausality.Policy.Webhook.{
  ResourceKey, at, append_to, group_keys, sorted_groups, WebhookRule, webhook_rules,
}
use kausality.Policy.Coverage.{key, has, or_none, or_assoc}

at-append_to :
    (g other : String) (resources : List String) (d : Dict (List String))
    → at other (append_to g resources d)
      ≡ (if g == other then append (at g d) resources else at other d)
unfolding append_to
at-append_to g other resources d = elim (Bool-cases (g == other)) [
  | inl e ↦
      ap (λ o. option_or o []) (lookup-insert g other (append (at g d) resources) d) ∙ rw e refl
  | inr e ↦
      ap (λ o. option_or o []) (lookup-insert g other (append (at g d) resources) d) ∙ rw e refl
]

pub contains-append_to :
    (g other r : String) (resources : List String) (d : Dict (List String))
    → contains (at other (append_to g resources d)) r
      ≡ (contains (at other d) r || ((g == other) && contains resources r))
contains-append_to g other r resources d =
    ap (λ xs. contains xs r) (at-append_to g other resources d) ∙ elim (Bool-cases (g == other)) [
      | inl e ↦
          let same = ap (λ x. contains (at x d) r || contains resources r) ((eq_iff g other).0 e) in
          rw e (any-append (λ y. y == r) (at g d) resources ∙ same)
      | inr e ↦ rw e (or_none (contains (at other d) r))
    ]

and_or_false : (a b : Bool) → (a && (b || false)) ≡ (a && b)
and_or_false a true = refl
and_or_false a false = refl

pub contains-group_keys :
    (keys : List ResourceKey) (d : Dict (List String)) (g r : String)
    → contains (at g (group_keys keys d)) r ≡ (contains (at g d) r || has keys (key g r))
unfolding group_keys
contains-group_keys [] d g r = or_none (contains (at g d) r)
contains-group_keys (k ∷ keys) d g r =
    contains-group_keys keys (append_to k.api_group (k.resource ∷ []) d) g r
    ∙ ap (λ b. b || has keys (key g r))
        (contains-append_to k.api_group g r (k.resource ∷ []) d
          ∙ ap (λ b. contains (at g d) r || b) (and_or_false (k.api_group == g) (k.resource == r)))
    ∙ or_assoc (contains (at g d) r) ((k.api_group == g) && (k.resource == r)) (has keys (key g r))

eq_comm : (s t : String) → (s == t) ≡ (t == s)
eq_comm s t = ground (arith, eq_iff s t, eq_iff t s)

contains-groups :
    (d : Dict (List String)) (g : String)
    → any (λ x. x == g) (map (λ e. e.0) d) ≡ is_some (lookup g d)
unfolding lookup
contains-groups [] g = refl
contains-groups (e ∷ d) g = elim (Bool-cases (g == e.0)) [
  | inl h ↦ rw (eq_comm e.0 g, h) refl
  | inr h ↦ rw (eq_comm e.0 g, h) (contains-groups d g)
]

pub contains-sorted_groups :
    (d : Dict (List String)) (g : String) → contains (sorted_groups d) g ≡ is_some (lookup g d)
unfolding sorted_groups
contains-sorted_groups d g =
    any-sort_by (λ x. x) (λ x. x == g) (map (λ e. e.0) d) ∙ contains-groups d g

-- A group that is not in the map has no resources.
pub some-at :
    (d : Dict (List String)) (g : String) (f : List String → Bool)
    → f [] ≡ false
    → (is_some (lookup g d) && f (at g d)) ≡ f (at g d)
some-at d g f none_there = elim (Option-cases (lookup g d)) [
  | inl e ↦ rw e (sym none_there)
  | inr (xs, e) ↦ rw e refl
]

-- The API server calls the webhook for the operation on the resource.
abbrev pub covers : String → String → String → List WebhookRule → Bool
covers op g r rules =
    any (λ w. contains w.operations op && (contains w.api_groups g && contains w.resources r)) rules

abbrev pub spec_operations : List String
spec_operations = "CREATE" ∷ "UPDATE" ∷ "DELETE" ∷ []

any-map :
    (p : String → Bool) (f : String → String) (xs : List String)
    → any p (map f xs) ≡ any (λ x. p (f x)) xs
any-map p f [] = refl
any-map p f (x ∷ xs) = ap (λ b. p (f x) || b) (any-map p f xs)

absorb : (x y c : Bool) → (x || (y || (c && (x || y)))) ≡ (x || y)
absorb true y c = refl
absorb false true c = refl
absorb false false true = refl
absorb false false false = refl

pass_by :
    (a u x y c p : Bool) → ((a && (false && x)) || ((u && (false && y)) || (c && p))) ≡ (c && p)
pass_by true true x y c p = refl
pass_by true false x y c p = refl
pass_by false true x y c p = refl
pass_by false false x y c p = refl

abbrev pub has_status : String → List String → Bool
has_status r xs = any (λ x. (x ++ "/status") == r) xs

-- The two rules of each group.
abbrev pub group_covers : String → String → Dict (List String) → String → Bool
group_covers op r d g =
    (contains spec_operations op && contains (at g d) r)
    || (contains ("UPDATE" ∷ []) op && has_status r (at g d))

pub covers-webhook_rules :
    (op r : String) (d : Dict (List String)) (groups : List String) (g : String)
    → covers op g r (webhook_rules d groups) ≡ (contains groups g && group_covers op r d g)
unfolding webhook_rules
covers-webhook_rules op r d [] g = refl
covers-webhook_rules op r d (h ∷ groups) g =
    let a = contains spec_operations op in
    let u = contains ("UPDATE" ∷ []) op in
    let sorted = sort_by (λ x. x) (at h d) in
    ap
      (λ b.
        (a && (((h == g) || false) && contains sorted r))
        || ((u && (((h == g) || false) && contains (map (λ x. x ++ "/status") sorted) r)) || b))
      (covers-webhook_rules op r d groups g)
    ∙ elim (Bool-cases (h == g)) [
      | inr e ↦ rw e (
          pass_by a u (contains sorted r) (contains (map (λ x. x ++ "/status") sorted) r)
            (contains groups g) (group_covers op r d g))
      | inl e ↦
          let same = (eq_iff h g).0 e in
          let here : contains sorted r ≡ contains (at g d) r =
            any-sort_by (λ x. x) (λ x. x == r) (at h d) ∙ ap (λ x. contains (at x d) r) same in
          let status : contains (map (λ x. x ++ "/status") sorted) r ≡ has_status r (at g d) =
            any-map (λ x. x == r) (λ x. x ++ "/status") sorted
            ∙ any-sort_by (λ x. x) (λ x. (x ++ "/status") == r) (at h d)
            ∙ ap (λ x. has_status r (at x d)) same in
          rw e (
            ap₂ (λ x y. (a && x) || ((u && y) || (contains groups g && group_covers op r d g))) here
              status
            ∙ absorb (a && contains (at g d) r) (u && has_status r (at g d)) (contains groups g))
    ]
