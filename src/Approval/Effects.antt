-- ===== src/Approval/Effects.antt =====
-- pkg/approval/actions.go: what an action that succeeds has established for the child, as the
-- checker reads it from the cluster afterwards.
use kausality.Base.{
  String, ℤ, pos, eq_ℤ_refl, true, false, not, ◌&&◌, if◌then◌else◌, List, [], ◌∷◌, any, is_empty,
  keep, ◌≡◌, refl, ◌⊎◌, inl, inr, arith, eq_iff, Bool-cases, Option-cases,
}
use kausality.Approval.Types.{Approval, ChildRef, matches, valid_under, is_valid, or_once}
use kausality.Approval.Rejections
use kausality.Approval.Rejections.{Rejection}
use kausality.Approval.Checker.{first_matching_approval}
use kausality.Approval.Actions.{granted_generation, regrant, grant, rereject, reject}
use kausality.Approval.Consumption.{match_field_self}

-- The modes that the API documents.
abbrev pub IsMode : String → Type 0
IsMode mode = (mode ≡ "once") ⊎ ((mode ≡ "generation") ⊎ (mode ≡ "always"))

granted-valid :
    (mode : String) (n g : ℤ)
    → IsMode mode
    → valid_under mode (granted_generation mode n g) g ≡ true
unfolding valid_under granted_generation
granted-valid mode n g h =
    ground (arith, eq_iff mode "once", eq_iff mode "generation", eq_iff mode "always", eq_ℤ_refl g)

or_once-IsMode : (mode : String) → IsMode mode → or_once mode ≡ mode
unfolding or_once
or_once-IsMode mode h =
    ground (arith, eq_iff mode "", eq_iff "once" "", eq_iff "generation" "", eq_iff "always" "")

module _ (child : ChildRef) (mode : String) (g : ℤ) where
  abbrev added : Approval
  added = record {
    api_version = child.api_version;
    kind = child.kind;
    name = child.name;
    generation = granted_generation mode (pos 0) g;
    mode = mode;
  }

  abbrev updated : Approval → Approval
  updated a = record a { mode = mode; generation = granted_generation mode a.generation g }

  grant-cons :
      (a : Approval) (more : List Approval)
      → grant child mode g (a ∷ more)
        ≡ (if matches a child then updated a ∷ more else a ∷ grant child mode g more)
  unfolding grant regrant
  grant-cons a more = elim (Bool-cases (matches a child)) [
    | inl hit ↦ rw hit
    | inr miss ↦ elim (Option-cases (regrant child mode g more)) [
      | inl e ↦ rw (miss, e)
      | inr (xs, e) ↦ rw (miss, e)
    ]
  ]

  added-matches : matches added child ≡ true
  unfolding matches
  added-matches = ground (
    arith,
    match_field_self child.api_version,
    match_field_self child.kind,
    match_field_self child.name,
  )

  updated-matches : (a : Approval) → matches (updated a) child ≡ matches a child
  unfolding matches
  updated-matches a = refl

  updated-valid : (a : Approval) → IsMode mode → is_valid (updated a) g ≡ true
  unfolding is_valid
  updated-valid a h = rw (or_once-IsMode mode h) (granted-valid mode a.generation g h)

  added-valid : IsMode mode → is_valid added g ≡ true
  unfolding is_valid
  added-valid h = rw (or_once-IsMode mode h) (granted-valid mode (pos 0) g h)

  pub grant-is_empty : (approvals : List Approval) → is_empty (grant child mode g approvals) ≡ false
  grant-is_empty [] = unfold grant regrant in refl
  grant-is_empty (a ∷ more) = rw (grant-cons a more) (ground arith)

  -- After a grant in a documented mode the checker approves the child.
  pub grant-approves :
      (approvals : List Approval)
      → IsMode mode
      → (first_matching_approval (grant child mode g approvals) child g).approved ≡ true
  unfolding first_matching_approval
  grant-approves [] h = unfold grant regrant in rw (added-matches, added-valid h)
  grant-approves (a ∷ more) h = rw (grant-cons a more) (elim (Bool-cases (matches a child)) [
    | inl hit ↦ rw (hit, updated-matches a, hit, updated-valid a h)
    | inr miss ↦ rw (miss, miss) (grant-approves more h)
  ])

module _ (child : ChildRef) (reason : String) (g : ℤ) where
  abbrev refused : Rejection
  refused = record {
    api_version = child.api_version;
    kind = child.kind;
    name = child.name;
    generation = g;
    reason = reason;
  }

  reject-cons :
      (r : Rejection) (more : List Rejection)
      → reject child reason g (r ∷ more) ≡ (
          if Rejections.matches r child
          then record r { generation = g; reason = reason } ∷ more
          else r ∷ reject child reason g more)
  unfolding reject rereject
  reject-cons r more = elim (Bool-cases (Rejections.matches r child)) [
    | inl hit ↦ rw hit
    | inr miss ↦ elim (Option-cases (rereject child reason g more)) [
      | inl e ↦ rw (miss, e)
      | inr (xs, e) ↦ rw (miss, e)
    ]
  ]

  pub reject-is_empty :
      (rejections : List Rejection) → is_empty (reject child reason g rejections) ≡ false
  reject-is_empty [] = unfold reject rereject in refl
  reject-is_empty (r ∷ more) = rw (reject-cons r more) (ground arith)

  -- After a rejection was written, one that matches the child is active.
  pub reject-rejects :
      (rejections : List Rejection)
      → any
          (λ r. Rejections.matches r child && Rejections.is_active r g)
          (reject child reason g rejections)
        ≡ true
  unfolding Rejections.matches Rejections.is_active
  reject-rejects [] =
      unfold reject rereject in
      ground (
        arith,
        match_field_self child.api_version,
        match_field_self child.kind,
        match_field_self child.name,
        eq_ℤ_refl g,
      )
  reject-rejects (r ∷ more) =
      rw (reject-cons r more) (ground (arith, eq_ℤ_refl g, reject-rejects more))

-- The filters of `RemoveApproval` leave no approval that matches the child.
pub filtered-unmatched :
    (child : ChildRef) (approvals : List Approval) (g : ℤ)
    → (first_matching_approval (keep (λ a. not (matches a child)) approvals) child g).approved
      ≡ false
unfolding first_matching_approval
filtered-unmatched child [] g = refl
filtered-unmatched child (a ∷ more) g = elim (Bool-cases (matches a child)) [
  | inl hit ↦ rw hit (filtered-unmatched child more g)
  | inr miss ↦ rw (miss, miss) (filtered-unmatched child more g)
]
