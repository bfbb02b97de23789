-- ===== src/Drift/Observed.antt =====
-- pkg/drift/resolver.go: where a parent's observed generation comes from.
use kausality.Base.{
  String, ℤ, ◌==◌, if◌then◌else◌, List, [], ◌∷◌, Option, none, some, option_or, ◌≡◌, refl, arith,
  Option-cases, Bool-cases, inl, inr,
}
use kausality.Kube.{RawCondition}
use kausality.Drift.Resolver.{observed_from, or_else}

-- A condition's generation, if the condition has the type.
abbrev pub generation_of : String → Option RawCondition → Option ℤ
generation_of type none = none
generation_of type (some c) = if option_or c.type "" == type then c.observed_generation else none

-- The first and the last generation among the conditions of a type.
abbrev pub first_of : String → List (Option RawCondition) → Option ℤ
first_of type [] = none
first_of type (c ∷ conditions) = or_else (generation_of type c) (first_of type conditions)

abbrev pub last_of : String → List (Option RawCondition) → Option ℤ
last_of type [] = none
last_of type (c ∷ conditions) = or_else (last_of type conditions) (generation_of type c)

-- The one pass over the conditions gives the generation of the first Synced condition that has one,
-- else that of the last Ready condition that has one, else what it started from. Entries that are
-- no maps, other types, and conditions without a generation count for nothing.
pub observed_from-eq :
    (ready : Option ℤ) (conditions : List (Option RawCondition))
    → observed_from ready conditions
      ≡ or_else (first_of "Synced" conditions) (or_else (last_of "Ready" conditions) ready)
unfolding observed_from
observed_from-eq ready [] = refl
observed_from-eq ready (none ∷ conditions) = ground (arith, observed_from-eq ready conditions)
observed_from-eq ready (some c ∷ conditions) =
    let type = option_or c.type "" in
    elim (Option-cases c.observed_generation) [
      | inl e ↦ rw e (ground (arith, observed_from-eq ready conditions))
      | inr (g, e) ↦ elim (Bool-cases (type == "Synced")) [
        | inl synced ↦ rw (e, synced)
        | inr other ↦ elim (Bool-cases (type == "Ready")) [
          | inl is_ready ↦
              rw (e, other, is_ready) (ground (arith, observed_from-eq (some g) conditions))
          | inr neither ↦ rw (e, other, neither) (ground (arith, observed_from-eq ready conditions))
        ]
      ]
    ]
