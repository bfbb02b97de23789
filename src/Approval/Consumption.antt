-- ===== src/Approval/Consumption.antt =====
-- pkg/approval/pruner.go: `ConsumeOnce` removes the approval that the checker matched, and no other.
use kausality.Base.{
  String, eq_ℤ_refl, true, false, List, [], ◌∷◌, ◌++◌, All, some, ◌≡◌, refl, arith, eq_iff, eq_refl,
}
use kausality.Approval.Types.{Approval, ChildRef, matches, match_field, or_once}
use kausality.Approval.Pruner.{as_child, is_consumed, consume_from, consume_once}
use kausality.Approval.FirstMatch.{FirstMatch}

match_field_trans :
    (p q v : String) → match_field p q ≡ true → match_field q v ≡ true → match_field p v ≡ true
unfolding match_field
match_field_trans p q v h k =
    ground (arith, eq_iff p "*", eq_iff p q, eq_iff q "*", eq_iff q v, eq_iff p v)

pub match_field_self : (p : String) → match_field p p ≡ true
unfolding match_field
match_field_self p = ground (arith, eq_refl p)

-- What matches an approval read as a child matches all that the approval matches.
matches_trans :
    (b a : Approval) (child : ChildRef)
    → matches b (as_child a) ≡ true
    → matches a child ≡ true
    → matches b child ≡ true
unfolding matches
matches_trans b a child h k = ground (
  arith,
  match_field_trans b.api_version a.api_version child.api_version,
  match_field_trans b.kind a.kind child.kind,
  match_field_trans b.name a.name child.name,
)

is_consumed_self : (a : Approval) → is_consumed a a ≡ true
unfolding is_consumed matches
is_consumed_self a = ground (
  arith,
  match_field_self a.api_version,
  match_field_self a.kind,
  match_field_self a.name,
  eq_ℤ_refl a.generation,
  eq_refl a.mode,
)

is_consumed_miss :
    (b a : Approval) (child : ChildRef)
    → matches b child ≡ false
    → matches a child ≡ true
    → is_consumed a b ≡ false
unfolding is_consumed
is_consumed_miss b a child m h = ground (arith, matches_trans b a child)

consume_from-found : (a : Approval) (rest : List Approval) → consume_from a true rest ≡ (rest, true)
unfolding consume_from
consume_from-found a [] = refl
consume_from-found a (b ∷ rest) = rw (consume_from-found a rest)

consume_from-split :
    (child : ChildRef) (before after : List Approval) (a : Approval)
    → All (λ b. matches b child ≡ false) before
    → matches a child ≡ true
    → consume_from a false (before ++ a ∷ after) ≡ (before ++ after, true)
unfolding consume_from
consume_from-split child [] after a m h = rw (is_consumed_self a, consume_from-found a after)
consume_from-split child (b ∷ before) after a m h =
    rw (is_consumed_miss b a child m.0 h, consume_from-split child before after a m.1 h)

-- If `a` is the first approval that matches the child and its mode is "once" or empty, then
-- `ConsumeOnce` removes that entry alone, keeps the order of the others, and reports it.
pub consume_once-FirstMatch :
    (child : ChildRef) (approvals : List Approval) (a : Approval)
    → (f : FirstMatch child approvals a) → or_once a.mode ≡ "once"
    → consume_once approvals (some a) ≡ (f.before ++ f.after, true)
unfolding consume_once
consume_once-FirstMatch child approvals a f once =
    rw (f.split, once) (consume_from-split child f.before f.after a f.missed f.hit)
