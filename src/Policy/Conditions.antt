-- ===== src/Policy/Conditions.antt =====
-- pkg/policy/controller.go: the conditions of a policy's status.
use kausality.Base.{
  String, ℕ, ℤ, Bool, true, false, not, ◌||◌, if◌then◌else◌, List, [], ◌∷◌, Option, none, some, ◌≡◌,
  refl, sym, ◌∙◌, ◌==◌, eq_refl, eq_iff, Bool-cases, inl, inr,
}
use mathlib.Core.Bool.{false≢true}

pub record Condition : Type 0 where
  pub cond_type : String
  pub status : String
  pub reason : String
  pub message : String
  pub last_transition_time : ℕ
  pub observed_generation : ℤ

-- The arguments of `setCondition`.
pub record Verdict : Type 0 where
  pub cond_type : String
  pub status : String
  pub reason : String
  pub message : String

unfoldable pub is_changed : Verdict → Condition → Bool
is_changed v c =
    not (c.status == v.status) || (not (c.reason == v.reason) || not (c.message == v.message))

unfoldable pub added_condition : ℕ → ℤ → Verdict → Condition
added_condition now generation v = record {
  cond_type = v.cond_type;
  status = v.status;
  reason = v.reason;
  message = v.message;
  last_transition_time = now;
  observed_generation = generation;
}

-- The body of the loop at the condition of that type.
unfoldable pub update_condition : ℕ → ℤ → Verdict → Condition → Condition
unfolding is_changed
update_condition now generation v c =
    if is_changed v c
    then record c {
      status = v.status;
      reason = v.reason;
      message = v.message;
      last_transition_time = now;
      observed_generation = generation;
    }
    else c

unfoldable pub set_condition : ℕ → ℤ → Verdict → List Condition → List Condition
unfolding added_condition update_condition
set_condition now generation v [] = added_condition now generation v ∷ []
set_condition now generation v (c ∷ conditions) =
    let rest = set_condition now generation v conditions in
    if c.cond_type == v.cond_type
    then update_condition now generation v c ∷ conditions
    else c ∷ rest

-- The first condition of a type.
abbrev pub find : String → List Condition → Option Condition
find cond_type [] = none
find cond_type (c ∷ conditions) =
    let rest = find cond_type conditions in if c.cond_type == cond_type then some c else rest

abbrev pub set_on : ℕ → ℤ → Verdict → Option Condition → Condition
set_on now generation v none = added_condition now generation v
set_on now generation v (some c) = update_condition now generation v c

if_twice {ℓ} :
    {A : Type ℓ}
    → (b : Bool) (x y z : A) → (if b then x else z) ≡ (if b then x else (if b then y else z))
if_twice true x y z = refl
if_twice false x y z = refl

if_swap {ℓ} :
    {A : Type ℓ}
    → (a b : Bool) (x y z : A) → (a ≡ true → b ≡ true → ⊥)
    → (if a then x else (if b then y else z)) ≡ (if b then y else (if a then x else z))
if_swap true true x y z h = absurd (h refl refl)
if_swap true false x y z h = refl
if_swap false b x y z h = refl

update-cond_type :
    (now : ℕ) (generation : ℤ) (v : Verdict) (c : Condition)
    → (update_condition now generation v c).cond_type ≡ c.cond_type
unfolding update_condition
update-cond_type now generation v c = elim (Bool-cases (is_changed v c)) [
  | inl e ↦ rw e refl
  | inr e ↦ rw e refl
]

-- `setCondition` sets the first condition of its type, or adds one. A condition of another type
-- stays as it is.
pub find-set_condition :
    (now : ℕ) (generation : ℤ) (v : Verdict) (other : String) (conditions : List Condition)
    → find other (set_condition now generation v conditions) ≡ (
        if v.cond_type == other
        then some (set_on now generation v (find v.cond_type conditions))
        else find other conditions)
unfolding set_condition added_condition
find-set_condition now generation v other [] = refl
find-set_condition now generation v other (c ∷ conditions) =
    elim (Bool-cases (c.cond_type == v.cond_type)) [
      | inl e ↦
          let same = (eq_iff c.cond_type v.cond_type).0 e in
          rw (e, update-cond_type now generation v c, same) (if_twice (v.cond_type == other) _ _ _)
      | inr e ↦
          rw (e, find-set_condition now generation v other conditions)
            (if_swap (c.cond_type == other) (v.cond_type == other) _ _ _ (λ p q. false≢true (
              sym e
              ∙ (eq_iff c.cond_type v.cond_type).1
                  ((eq_iff c.cond_type other).0 p ∙ sym ((eq_iff v.cond_type other).0 q)))))
    ]

is_changed-update :
    (now : ℕ) (generation : ℤ) (v : Verdict) (c : Condition)
    → is_changed v (update_condition now generation v c) ≡ false
unfolding update_condition is_changed
is_changed-update now generation v c = elim (Bool-cases (is_changed v c)) [
  | inl e ↦ rw e (simp eq_refl)
  | inr e ↦ rw e e
]

is_changed-added :
    (now : ℕ) (generation : ℤ) (v : Verdict)
    → is_changed v (added_condition now generation v) ≡ false
unfolding is_changed added_condition
is_changed-added now generation v = simp eq_refl

-- Setting a condition again, at a later time or for a later generation, changes nothing.
pub set_condition_idem :
    (now later : ℕ) (generation next : ℤ) (v : Verdict) (conditions : List Condition)
    → set_condition later next v (set_condition now generation v conditions)
      ≡ set_condition now generation v conditions
unfolding set_condition update_condition added_condition
set_condition_idem now later generation next v [] =
    rw (eq_refl v.cond_type, is_changed-added now generation v) refl
set_condition_idem now later generation next v (c ∷ conditions) =
    elim (Bool-cases (c.cond_type == v.cond_type)) [
      | inl e ↦
          rw
            (
              e,
              set_condition,
              update-cond_type now generation v c,
              e,
              is_changed-update now generation v c,
            )
            refl
      | inr e ↦
          rw (e, set_condition, e, set_condition_idem now later generation next v conditions) refl
    ]
