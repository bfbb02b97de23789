-- ===== src/Policy/Precedence.antt =====
-- What `ResolveMode`, `IsTracked` and `Refresh` of pkg/policy/store.go promise together.
use kausality.Base.{
  if◌then◌else◌, String, Bool, true, false, not, List, [], ◌∷◌, Option, none, some, is_some, Dict,
  ◌≡◌, ◌⊎◌, ◌||◌, ◌==◌, ◌++◌, eq_iff, refl, ap, ◌∙◌, any-append, All-middle, subst, arith, inl, inr,
  All, Bool-cases, keep, any,
}
use kausality.Base.Sort.{IsSorted, sort_by-IsSorted, sort_by-perm}
use mathlib.Core.List.{Perm}
use kausality.Kube.{entry}
use kausality.Policy.Types.{
  Kausality, ModeOverride, ResourceContext, is_valid_mode, mode_annotation, mode_log,
  mode_by_annotations,
}
use kausality.Policy.Store.{policy_matches, is_tracked, first_override, override_matches}
use kausality.Policy.Resolution.{best_policy, mode_of, resolve_mode, refresh}
use kausality.Policy.Best.{NoMatch, Best, Chosen, best_policy-Chosen}

abbrev pub annotated : Dict String → String
annotated annotations = entry (some annotations) mode_annotation

-- Every mode that a policy can answer with is one of the two that exist.
abbrev pub ValidOverride : ModeOverride → Type 0
ValidOverride o = is_valid_mode o.mode ≡ true

abbrev pub ValidPolicy : {L : Type 0} → Kausality L → Type 0
ValidPolicy p = (is_valid_mode p.spec.mode ≡ true) × All ValidOverride p.spec.overrides

first_override_valid :
    (os : List ModeOverride) (ctx : ResourceContext) (mode : String)
    → All ValidOverride os
    → is_valid_mode mode ≡ true
    → is_valid_mode (first_override os ctx mode) ≡ true
unfolding first_override
first_override_valid [] ctx mode h k = k
first_override_valid (o ∷ os) ctx mode h k = elim (Bool-cases (override_matches o ctx)) [
  | inl e ↦ rw e h.0
  | inr e ↦ rw e (first_override_valid os ctx mode h.1 k)
]

pub valid-one_of : (mode : String) → is_valid_mode mode ≡ true → (mode ≡ "log") ⊎ (mode ≡ "enforce")
unfolding is_valid_mode
valid-one_of mode h = ground (arith, eq_iff mode "log", eq_iff mode "enforce")

-- The first override that matches, or the mode of the policy if there is none.
abbrev pub Overridden : ResourceContext → List ModeOverride → String → String → Type 0
Overridden ctx overrides otherwise mode =
    (All (λ o. override_matches o ctx ≡ false) overrides × (mode ≡ otherwise))
    ⊎ ((before : List ModeOverride) × (o : ModeOverride) × (after : List ModeOverride) × (overrides
          ≡ before ++ o ∷ after)
        × All (λ p. override_matches p ctx ≡ false) before
        × (override_matches o ctx ≡ true)
        × (mode ≡ o.mode))

first_override-Overridden :
    (overrides : List ModeOverride) (ctx : ResourceContext) (otherwise : String)
    → Overridden ctx overrides otherwise (first_override overrides ctx otherwise)
unfolding first_override
first_override-Overridden [] ctx otherwise = inl (tt, refl)
first_override-Overridden (o ∷ overrides) ctx otherwise =
    elim (Bool-cases (override_matches o ctx)) [
      | inl e ↦ rw e (inr ([], o, overrides, refl, tt, e, refl))
      | inr e ↦ rw e (elim (first_override-Overridden overrides ctx otherwise) [
        | inl (none_match, m) ↦ inl ((refl, none_match), m)
        | inr (before, p, after, split, missed, hit, m) ↦
            inr (o ∷ before, p, after, ap (◌∷◌ o) split, (e, missed), hit, m)
      ])
    ]

pub annotations_valid :
    (object namespace : Dict String) (mode : String)
    → is_valid_mode mode ≡ true
    → is_valid_mode (mode_by_annotations object namespace mode) ≡ true
unfolding mode_by_annotations
annotations_valid object namespace mode h = elim (Bool-cases (is_valid_mode (annotated object))) [
  | inl o ↦ rw (o, o) refl
  | inr o ↦ elim (Bool-cases (is_valid_mode (annotated namespace))) [
    | inl n ↦ rw (o, n, n) refl
    | inr n ↦ rw (o, n) h
  ]
]

module _ {L : Type 0} (selects : L → Dict String → Option Bool) (ctx : ResourceContext) where
  NoMatch-untracked :
      (ps : List (Kausality L)) → All (NoMatch selects ctx) ps → is_tracked selects ctx ps ≡ false
  unfolding is_tracked
  NoMatch-untracked [] h = refl
  NoMatch-untracked (p ∷ ps) h = rw h.0 (NoMatch-untracked ps h.1)

  Best-tracked :
      (ps : List (Kausality L)) (p : Kausality L)
      → Best selects ctx ps p
      → is_tracked selects ctx ps ≡ true
  unfolding is_tracked
  Best-tracked ps p b =
      ap (any (policy_matches selects ctx)) b.position
      ∙ any-append (policy_matches selects ctx) b.before (p ∷ b.after)
      ∙ ground (arith, b.selected)

  Chosen-tracked :
      (ps : List (Kausality L)) (r : Option (Kausality L))
      → Chosen selects ctx ps r
      → is_tracked selects ctx ps ≡ is_some r
  unfolding Chosen
  Chosen-tracked ps none h = NoMatch-untracked ps h
  Chosen-tracked ps (some p) h = Best-tracked ps p h

  -- `IsTracked` and the loop of `ResolveMode` agree: a resource is tracked exactly when the loop
  -- ends with a policy.
  pub is_tracked-best_policy :
      (ps : List (Kausality L)) → is_tracked selects ctx ps ≡ is_some (best_policy selects ctx ps)
  is_tracked-best_policy ps =
      Chosen-tracked ps (best_policy selects ctx ps) (best_policy-Chosen selects ctx ps)

  log-valid : is_valid_mode mode_log ≡ true
  unfolding is_valid_mode
  log-valid = refl

  -- The policy that the loop ends with is among the policies, so a property of all holds of it.
  mode_valid :
      (ps : List (Kausality L)) (r : Option (Kausality L))
      → All ValidPolicy ps
      → Chosen selects ctx ps r
      → is_valid_mode (mode_of selects ctx r) ≡ true
  unfolding mode_of Chosen
  mode_valid ps none h b = log-valid
  mode_valid ps (some p) h b =
      let valid =
        All-middle ValidPolicy b.before p b.after (subst (All ValidPolicy) b.position h) in
      first_override_valid p.spec.overrides ctx p.spec.mode valid.1 valid.0

  -- The mode that the policies give, by the best one.
  abbrev pub Given : Option (Kausality L) → String → Type 0
  Given none mode = mode ≡ "log"
  Given (some p) mode = Overridden ctx p.spec.overrides p.spec.mode mode

  mode_of-Given : (best : Option (Kausality L)) → Given best (mode_of selects ctx best)
  unfolding mode_of
  mode_of-Given none = refl
  mode_of-Given (some p) = first_override-Overridden p.spec.overrides ctx p.spec.mode

  -- Where every mode in the policies is "log" or "enforce", so is the answer of `ResolveMode`. It is
  -- the annotation of the object if that is one of the two, else the one of the namespace if that is,
  -- else what the best policy gives: the mode of its first override that matches, or its own mode if
  -- none does; or "log" where no policy matches.
  pub resolve_mode_lem :
      (ps : List (Kausality L)) (object namespace : Dict String)
      → All ValidPolicy ps
      → let mode = resolve_mode selects ps ctx object namespace in
        ((mode ≡ "log") ⊎ (mode ≡ "enforce"))
        × (best : Option (Kausality L)) × (given : String) × Chosen selects ctx ps best
        × Given best given
        × (mode ≡ (
            if (annotated object == "log") || (annotated object == "enforce")
            then annotated object
            else if (annotated namespace == "log") || (annotated namespace == "enforce")
            then annotated namespace
            else given))
  unfolding resolve_mode mode_by_annotations is_valid_mode
  resolve_mode_lem ps object namespace h =
      let best = best_policy selects ctx ps in
      let chosen = best_policy-Chosen selects ctx ps in
      (
        valid-one_of _ (annotations_valid object namespace _ (mode_valid ps best h chosen)),
        best,
        mode_of selects ctx best,
        chosen,
        mode_of-Given best,
        refl,
      )

abbrev pub policy_name : {L : Type 0} → Kausality L → String
policy_name p = p.name

abbrev pub live : {L : Type 0} → List (Kausality L) → List (Kausality L)
live items = keep (λ p. not (is_some p.deletion_timestamp)) items

-- `Refresh` keeps exactly the policies that are not being deleted, in the order of their names.
pub refresh-IsSorted :
    {L : Type 0} (items : List (Kausality L))
    → IsSorted policy_name (refresh items) × Perm (refresh items) (live items)
unfolding refresh
refresh-IsSorted items =
    (sort_by-IsSorted policy_name (live items), sort_by-perm policy_name (live items))

-- After a `Refresh` the store holds exactly the policies that are not being deleted, in the order of
-- their names, and of these `ResolveMode` picks one that matches with the highest score, the first
-- in that order where the scores are equal. It picks none only where none of them matches.
pub best_policy-refresh :
    {L : Type 0} (selects : L → Dict String → Option Bool) (ctx : ResourceContext)
    (items : List (Kausality L))
    → IsSorted policy_name (refresh items)
      × Perm (refresh items) (live items)
      × Chosen selects ctx (refresh items) (best_policy selects ctx (refresh items))
best_policy-refresh selects ctx items =
    let (sorted, same) = refresh-IsSorted items in
    (sorted, same, best_policy-Chosen selects ctx (refresh items))
