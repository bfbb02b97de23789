-- ===== src/Approval/FirstMatch.antt =====
-- The meaning of the checker's loops: the first approval that matches decides, and one active
-- rejection that matches is enough.
use kausality.Base.{
  String, ℤ, eq_ℤ_iff, true, false, ◌&&◌, List, [], ◌∷◌, ◌++◌, All, any, ◌≡◌, refl, ◌≢◌, ◌∙◌, ◌↔◌,
  ◌⊎◌, inl, inr, arith, Bool-cases, eq_iff, ap,
}
use kausality.Approval.Types.{Approval, ChildRef, matches, is_valid, valid_under, or_once}
use kausality.Approval.Rejections
use kausality.Approval.Rejections.{Rejection}
use kausality.Approval.Checker.{first_active_rejection, first_matching_approval}

-- `a` is the first of the approvals that match the child.
pub record FirstMatch (child : ChildRef) (approvals : List Approval) (a : Approval) : Type 0 where
  pub before : List Approval
  pub after : List Approval
  pub split : approvals ≡ before ++ a ∷ after
  pub missed : All (λ b. matches b child ≡ false) before
  pub hit : matches a child ≡ true

-- What an approval's mode demands of the parent's generation.
abbrev pub Valid : Approval → ℤ → Type 0
Valid a g =
    (a.mode ≡ "always")
    ⊎ (((a.mode ≡ "") ⊎ ((a.mode ≡ "once") ⊎ (a.mode ≡ "generation"))) × (a.generation ≡ g))

valid_under_iff :
    (mode : String) (n g : ℤ)
    → (valid_under mode n g ≡ true)
      ↔ ((mode ≡ "always") ⊎ (((mode ≡ "once") ⊎ (mode ≡ "generation")) × (n ≡ g)))
unfolding valid_under
valid_under_iff mode n g =
    ground (arith, eq_iff mode "always", eq_iff mode "once", eq_iff mode "generation", eq_ℤ_iff n g)

pub or_once_cases :
    (mode : String)
    → ((mode ≡ "") × (or_once mode ≡ "once")) ⊎ ((mode ≢ "") × (or_once mode ≡ mode))
unfolding or_once
or_once_cases mode = ground (arith, eq_iff mode "")

pub is_valid_iff : (a : Approval) (g : ℤ) → (is_valid a g ≡ true) ↔ Valid a g
unfolding is_valid
is_valid_iff a g = ground (
  arith,
  or_once_cases a.mode,
  valid_under_iff (or_once a.mode) a.generation g,
  eq_iff "" "always",
  eq_iff "once" "always",
  eq_iff "" "generation",
)

module _ (child : ChildRef) where
  FirstMatch-cons :
      (b : Approval) (approvals : List Approval) (a : Approval)
      → matches b child ≡ false
      → FirstMatch child approvals a
      → FirstMatch child (b ∷ approvals) a
  FirstMatch-cons b approvals a miss f = record {
    before = b ∷ f.before;
    after = f.after;
    split = ap (◌∷◌ b) f.split;
    missed = (miss, f.missed);
    hit = f.hit;
  }

  -- The first match is approved exactly when it is valid.
  pub first_matching_of_FirstMatch :
      (before after : List Approval) (a : Approval) (g : ℤ)
      → All (λ b. matches b child ≡ false) before
      → matches a child ≡ true
      → (first_matching_approval (before ++ a ∷ after) child g).approved ≡ is_valid a g
  unfolding first_matching_approval
  first_matching_of_FirstMatch [] after a g m h = ground (arith, Bool-cases (is_valid a g))
  first_matching_of_FirstMatch (b ∷ before) after a g m h =
      rw (m.0, first_matching_approval) (first_matching_of_FirstMatch before after a g m.1 h)

  first_matching_sound :
      (approvals : List Approval) (g : ℤ)
      → (first_matching_approval approvals child g).approved ≡ true
      → (a : Approval) × FirstMatch child approvals a × (is_valid a g ≡ true)
  unfolding first_matching_approval
  first_matching_sound [] g h = cc
  first_matching_sound (b ∷ rest) g h = elim (Bool-cases (matches b child)) [
    | inl hit ↦ (
      b,
      record { before = []; after = rest; split = refl; missed = tt; hit = hit },
      ground (arith, hit),
    )
    | inr miss ↦
        let (a, first, valid) = first_matching_sound rest g (ground (arith, miss)) in
        (a, FirstMatch-cons b rest a miss first, valid)
  ]

  -- An approval of the list is granted exactly when its first match is valid.
  pub first_matching_iff :
      (approvals : List Approval) (g : ℤ)
      → ((first_matching_approval approvals child g).approved ≡ true)
        ↔ ((a : Approval) × FirstMatch child approvals a × Valid a g)
  first_matching_iff approvals g = (
    λ h.
        let (a, first, valid) = first_matching_sound approvals g h in
        (a, first, (is_valid_iff a g).0 valid),
    λ (a, first, valid). rw first.split (
        first_matching_of_FirstMatch first.before first.after a g first.missed first.hit
        ∙ (is_valid_iff a g).1 valid),
  )

  pub first_active-rejected :
      (rejections : List Rejection) (g : ℤ)
      → (first_active_rejection rejections child g).rejected
        ≡ any (λ r. Rejections.matches r child && Rejections.is_active r g) rejections
  unfolding first_active_rejection
  first_active-rejected [] g = refl
  first_active-rejected (r ∷ more) g = ground (arith, first_active-rejected more g)
