-- ===== src/Approval/Verdict.antt =====
-- pkg/approval/checker.go: the verdict of `Check` on a parent, over what its annotations hold.
use kausality.Base.{
  String, ℤ, Bool, true, false, ◌==◌, ◌&&◌, List, [], ◌∷◌, Option-cases, some, any, ◌≡◌, refl, ◌↔◌,
  inl, inr, arith, Bool-cases, Result, ok, err, Result-cases, if◌then◌else◌,
}
use kausality.Annotations.{approvals_annotation, rejections_annotation}
use kausality.Kube.{Codec, Object, entry}
use kausality.Approval.Types.{Approval, ChildRef, parse_approvals}
use kausality.Approval.Rejections
use kausality.Approval.Rejections.{Rejection, parse_rejections}
use kausality.Approval.Checker.{
  check_rejections, check_approvals, check_from_annotations, check, first_active_rejection,
  first_matching_approval,
}
use kausality.Approval.FirstMatch.{FirstMatch, Valid, first_matching_iff, first_active-rejected}

-- What a parser returns, or nothing.
abbrev or_none {ℓ} : {A : Type ℓ} → Result (List A) → List A
or_none (ok xs) = xs
or_none (err e) = []

parse_rejections-empty :
    (c : Codec (List Rejection)) (value : String)
    → (value == "") ≡ true
    → parse_rejections c value ≡ ok []
unfolding parse_rejections
parse_rejections-empty c value e = rw e

parse_approvals-empty :
    (c : Codec (List Approval)) (value : String)
    → (value == "") ≡ true
    → parse_approvals c value ≡ ok []
unfolding parse_approvals
parse_approvals-empty c value e = rw e

module _ (approvals_json : Codec (List Approval)) (rejections_json : Codec (List Rejection)) where
  -- The approvals and the rejections that a parent carries: none where the annotation is missing
  -- or cannot be parsed.
  abbrev pub approvals_on : Object → List Approval
  approvals_on parent =
      or_none (parse_approvals approvals_json (entry parent.annotations approvals_annotation))

  abbrev pub rejections_on : Object → List Rejection
  rejections_on parent =
      or_none (parse_rejections rejections_json (entry parent.annotations rejections_annotation))

  -- A rejection of the child is in force.
  abbrev pub is_rejected : Object → ChildRef → ℤ → Bool
  is_rejected parent child g =
      any (λ r. Rejections.matches r child && Rejections.is_active r g) (rejections_on parent)

  check_rejections-rejected :
      (value : String) (child : ChildRef) (g : ℤ)
      → (check_rejections approvals_json rejections_json value child g).rejected
        ≡ any
            (λ r. Rejections.matches r child && Rejections.is_active r g)
            (or_none (parse_rejections rejections_json value))
  unfolding check_rejections
  check_rejections-rejected value child g = elim (Bool-cases (value == "")) [
    | inl e ↦ rw (e, parse_rejections-empty rejections_json value e)
    | inr e ↦ elim (Result-cases (parse_rejections rejections_json value)) [
      | inl (rs, p) ↦ rw (e, p) (first_active-rejected child rs g)
      | inr (m, p) ↦ rw (e, p)
    ]
  ]

  check_approvals-approved :
      (value : String) (child : ChildRef) (g : ℤ)
      → (check_approvals approvals_json rejections_json value child g).approved
        ≡ (first_matching_approval
            (or_none (parse_approvals approvals_json value))
            child
            g).approved
  unfolding check_approvals first_matching_approval
  check_approvals-approved value child g = elim (Bool-cases (value == "")) [
    | inl e ↦ rw (e, parse_approvals-empty approvals_json value e)
    | inr e ↦ elim (Result-cases (parse_approvals approvals_json value)) [
      | inl (rs, p) ↦ rw (e, p)
      | inr (m, p) ↦ rw (e, p)
    ]
  ]

  first_active-approved :
      (rejections : List Rejection) (child : ChildRef) (g : ℤ)
      → (first_active_rejection rejections child g).approved ≡ false
  unfolding first_active_rejection
  first_active-approved [] child g = refl
  first_active-approved (r ∷ more) child g = ground (arith, first_active-approved more child g)

  check_rejections-approved :
      (value : String) (child : ChildRef) (g : ℤ)
      → (check_rejections approvals_json rejections_json value child g).approved ≡ false
  unfolding check_rejections
  check_rejections-approved value child g = elim (Bool-cases (value == "")) [
    | inl e ↦ rw e
    | inr e ↦ elim (Result-cases (parse_rejections rejections_json value)) [
      | inl (rs, p) ↦ rw (e, p) (first_active-approved rs child g)
      | inr (m, p) ↦ rw (e, p)
    ]
  ]

  first_matching-rejected :
      (approvals : List Approval) (child : ChildRef) (g : ℤ)
      → (first_matching_approval approvals child g).rejected ≡ false
  unfolding first_matching_approval
  first_matching-rejected [] child g = refl
  first_matching-rejected (a ∷ more) child g = ground (arith, first_matching-rejected more child g)

  check_approvals-rejected :
      (value : String) (child : ChildRef) (g : ℤ)
      → (check_approvals approvals_json rejections_json value child g).rejected ≡ false
  unfolding check_approvals
  check_approvals-rejected value child g = elim (Bool-cases (value == "")) [
    | inl e ↦ rw e
    | inr e ↦ elim (Result-cases (parse_approvals approvals_json value)) [
      | inl (rs, p) ↦ rw (e, p) (first_matching-rejected rs child g)
      | inr (m, p) ↦ rw (e, p)
    ]
  ]

  -- `CheckFromAnnotations` on the two texts.
  check_from-parts :
      (approvals rejections : String) (child : ChildRef) (g : ℤ)
      → let result =
          check_from_annotations approvals_json rejections_json approvals rejections child g in
        let refused =
          any
            (λ r. Rejections.matches r child && Rejections.is_active r g)
            (or_none (parse_rejections rejections_json rejections)) in
        let granted =
          (first_matching_approval
            (or_none (parse_approvals approvals_json approvals))
            child
            g).approved in
        (result.rejected ≡ refused) × (result.approved ≡ (if refused then false else granted))
  unfolding check_from_annotations
  check_from-parts approvals rejections child g = ground (
    arith,
    check_rejections-rejected rejections child g,
    check_rejections-approved rejections child g,
    check_approvals-rejected approvals child g,
    check_approvals-approved approvals child g,
  )

  pub check-parts :
      (parent : Object) (child : ChildRef) (g : ℤ)
      → let result = check approvals_json rejections_json parent child g in
        let granted = (first_matching_approval (approvals_on parent) child g).approved in
        (result.rejected ≡ is_rejected parent child g)
        × (result.approved ≡ (if is_rejected parent child g then false else granted))
  unfolding check check_from_annotations
  check-parts parent child g = elim (Option-cases parent.annotations) [
    | inl e ↦
        rw
          (
            e,
            parse_rejections-empty rejections_json "" refl,
            parse_approvals-empty approvals_json "" refl,
            check,
          )
          (refl, unfold first_matching_approval in refl)
    | inr (m, e) ↦
        rw (e, check)
          (check_from-parts (entry (some m) approvals_annotation)
            (entry (some m) rejections_annotation) child g)
  ]

  -- `Check` rejects exactly when an active rejection on the parent matches the child. It approves
  -- exactly when there is none and the first approval that matches the child is valid for the
  -- generation: its mode is "always", or it is "once", "generation" or empty and the generations
  -- are equal. A list whose annotation is missing or cannot be parsed counts as empty.
  pub check_iff :
      (parent : Object) (child : ChildRef) (g : ℤ)
      → let result = check approvals_json rejections_json parent child g in
        ((result.rejected ≡ true) ↔ (is_rejected parent child g ≡ true))
        × ((result.approved ≡ true) ↔ (
            (is_rejected parent child g ≡ false)
            × ((a : Approval) × FirstMatch child (approvals_on parent) a × Valid a g)))
  check_iff parent child g =
      let (rejects, approves) = check-parts parent child g in
      let granted = first_matching_iff child (approvals_on parent) g in
      ground (arith, rejects, approves, granted.0, granted.1)
