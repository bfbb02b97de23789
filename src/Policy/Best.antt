-- ===== src/Policy/Best.antt =====
-- The loop over the policies in `pkg/policy/store.go: ResolveMode`.
use kausality.Base.{
  String, ℕ, ◌<◌, ◌≤◌, ltb, Bool, true, false, List, [], ◌∷◌, ◌++◌, Option, none, some, Dict, ◌≡◌,
  ◌∙◌, refl, sym, arith, inl, inr, ◌⊎◌, All, Bool-cases, ltb→lt, ltb-false→le,
}
use mathlib.Core.Bool.{false≢true}
use kausality.Policy.Types.{Kausality, ResourceContext}
use kausality.Policy.Store.{policy_matches}
use kausality.Policy.Resolution.{calculate_specificity, best_from, best_policy}

module _ {L : Type 0} (selects : L → Dict String → Option Bool) (ctx : ResourceContext) where
  -- A policy that matches `ctx` scores at most `n`, or below `n`.
  abbrev pub ScoresAtMost : ℕ → Kausality L → Type 0
  ScoresAtMost n q = policy_matches selects ctx q ≡ true → calculate_specificity q ctx ≤ n

  abbrev pub ScoresBelow : ℕ → Kausality L → Type 0
  ScoresBelow n q = policy_matches selects ctx q ≡ true → calculate_specificity q ctx < n

  abbrev pub NoMatch : Kausality L → Type 0
  NoMatch q = policy_matches selects ctx q ≡ false

  -- `best` matches, outscores every match before it, and is not outscored by one after it.
  pub record Best (policies : List (Kausality L)) (best : Kausality L) : Type 0 where
    pub before : List (Kausality L)
    pub after : List (Kausality L)
    pub position : policies ≡ before ++ best ∷ after
    pub selected : policy_matches selects ctx best ≡ true
    pub outscores : All (ScoresBelow (calculate_specificity best ctx)) before
    pub unbeaten : All (ScoresAtMost (calculate_specificity best ctx)) after

  Later : Kausality L → List (Kausality L) → Option (Kausality L) → Type 0
  Later b ps r =
      ((r ≡ some b) × All (ScoresAtMost (calculate_specificity b ctx)) ps)
      ⊎ ((p : Kausality L) × (r ≡ some p)
          × Best ps p
          × (calculate_specificity b ctx < calculate_specificity p ctx))

  prepend :
      (q : Kausality L) (ps : List (Kausality L)) (p : Kausality L)
      → Best ps p
      → ScoresBelow (calculate_specificity p ctx) q
      → Best (q ∷ ps) p
  prepend q ps p b h = record {
    before = q ∷ b.before;
    after = b.after;
    position = λ i. q ∷ b.position i;
    selected = b.selected;
    outscores = (h, b.outscores);
    unbeaten = b.unbeaten;
  }

  here :
      (q : Kausality L) (ps : List (Kausality L))
      → policy_matches selects ctx q ≡ true
      → All (ScoresAtMost (calculate_specificity q ctx)) ps
      → Best (q ∷ ps) q
  here q ps m h = record {
    before = [];
    after = ps;
    position = refl;
    selected = m;
    outscores = tt;
    unbeaten = h;
  }

  Later-none : (b : Kausality L) → Later b [] (some b)
  unfolding Later
  Later-none b = inl (refl, tt)

  Later-skip :
      (b q : Kausality L) (ps : List (Kausality L)) (r : Option (Kausality L))
      → ScoresAtMost (calculate_specificity b ctx) q
      → Later b ps r
      → Later b (q ∷ ps) r
  unfolding Later
  Later-skip b q ps r h (inl kept) = inl (kept.0, (h, kept.1))
  Later-skip b q ps r h (inr (p, e, best, more)) =
      inr (p, e, prepend q ps p best (λ m. omega (arith, h m, more)), more)

  Later-take :
      (b q : Kausality L) (ps : List (Kausality L)) (r : Option (Kausality L))
      → policy_matches selects ctx q ≡ true
      → calculate_specificity b ctx < calculate_specificity q ctx
      → Later q ps r
      → Later b (q ∷ ps) r
  unfolding Later
  Later-take b q ps r m h (inl kept) = inr (q, kept.0, here q ps m kept.1, h)
  Later-take b q ps r m h (inr (p, e, best, more)) =
      inr (p, e, prepend q ps p best (λ m. more), omega (arith, h, more))

  best_from-Later :
      (b : Kausality L) (ps : List (Kausality L))
      → Later b ps (best_from selects ctx (some b) (calculate_specificity b ctx) ps)
  unfolding best_from
  best_from-Later b [] = Later-none b
  best_from-Later b (q ∷ ps) = elim (Bool-cases (policy_matches selects ctx q)) [
    | inr miss ↦
        rw miss
          (Later-skip b q ps _ (λ hit. absurd (false≢true (sym miss ∙ hit))) (best_from-Later b ps))
    | inl hit ↦
        rw hit
          (elim (Bool-cases (ltb (calculate_specificity b ctx) (calculate_specificity q ctx))) [
            | inl more ↦ rw more (Later-take b q ps _ hit (ltb→lt _ _ more) (best_from-Later q ps))
            | inr miss ↦
                rw miss (Later-skip b q ps _ (λ _. ltb-false→le _ _ miss) (best_from-Later b ps))
          ])
  ]

  -- The loop ends with no policy when none matches, and with the best one otherwise.
  unfoldable pub Chosen : List (Kausality L) → Option (Kausality L) → Type 0
  Chosen ps none = All NoMatch ps
  Chosen ps (some p) = Best ps p

  Chosen-none : Chosen [] none
  unfolding Chosen
  Chosen-none = tt

  Chosen-Later :
      (b : Kausality L) (ps : List (Kausality L)) (r : Option (Kausality L))
      → policy_matches selects ctx b ≡ true
      → Later b ps r
      → Chosen (b ∷ ps) r
  unfolding Later Chosen
  Chosen-Later b ps r m (inl kept) = rw kept.0 (here b ps m kept.1)
  Chosen-Later b ps r m (inr (p, e, best, more)) = rw e (prepend b ps p best (λ m. more))

  Chosen-skip :
      (b : Kausality L) (ps : List (Kausality L)) (r : Option (Kausality L))
      → policy_matches selects ctx b ≡ false
      → Chosen ps r
      → Chosen (b ∷ ps) r
  unfolding Chosen
  Chosen-skip b ps none m h = (m, h)
  Chosen-skip b ps (some p) m h = prepend b ps p h (λ hit. absurd (false≢true (sym m ∙ hit)))

  -- `ResolveMode` picks the policy that matches with the highest score, and the first of those in
  -- the list where the scores are equal. It picks none only where no policy matches.
  pub best_policy-Chosen : (ps : List (Kausality L)) → Chosen ps (best_policy selects ctx ps)
  unfolding best_policy best_from
  best_policy-Chosen [] = Chosen-none
  best_policy-Chosen (p ∷ ps) = elim (Bool-cases (policy_matches selects ctx p)) [
    | inl hit ↦ rw hit (Chosen-Later p ps _ hit (best_from-Later p ps))
    | inr miss ↦ rw miss (Chosen-skip p ps _ miss (best_policy-Chosen ps))
  ]
