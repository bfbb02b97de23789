-- ===== src/Approval/Checker.antt =====
-- pkg/approval/checker.go: whether a child's mutation is approved or rejected by its parent.
use kausality.Base.{
  String, ℤ, Bool, true, false, ◌&&◌, ◌==◌, if◌then◌else◌, List, [], ◌∷◌, Option, none, some, ok,
  err,
}
use Prim.Native.String.{◌++◌}
use kausality.Annotations.{approvals_annotation, rejections_annotation}
use kausality.Kube.{Codec, Object, entry}
use kausality.Approval.Rejections
use kausality.Approval.Rejections.{Rejection, parse_rejections}
use kausality.Approval.Types.{Approval, ChildRef, matches, is_valid, parse_approvals}

pub record CheckResult : Type 0 where
  pub approved : Bool
  pub rejected : Bool
  pub reason : String
  pub matched_approval : Option Approval
  pub matched_rejection : Option Rejection

-- `CheckResult{Reason: reason}`.
abbrev pub neither : String → CheckResult
neither reason = record {
  approved = false;
  rejected = false;
  reason = reason;
  matched_approval = none;
  matched_rejection = none;
}

abbrev approved_by : Approval → CheckResult
approved_by a = record {
  approved = true;
  rejected = false;
  reason = "approved via " ++ (a.mode ++ " approval");
  matched_approval = some a;
  matched_rejection = none;
}

abbrev rejected_by : Rejection → CheckResult
rejected_by r = record {
  approved = false;
  rejected = true;
  reason = r.reason;
  matched_approval = none;
  matched_rejection = some r;
}

-- The loop of `checkRejections`.
unfoldable pub first_active_rejection : List Rejection → ChildRef → ℤ → CheckResult
first_active_rejection [] child generation = neither ""
first_active_rejection (r ∷ rs) child generation =
    if Rejections.matches r child && Rejections.is_active r generation
    then rejected_by r
    else first_active_rejection rs child generation

-- The loop of `checkApprovals`: the first entry that matches decides.
unfoldable pub first_matching_approval : List Approval → ChildRef → ℤ → CheckResult
first_matching_approval [] child generation = neither "no approval found for child"
first_matching_approval (a ∷ more) child generation =
    if matches a child
    then (if is_valid a generation
        then approved_by a
        else neither "approval found but invalid (stale generation)")
    else first_matching_approval more child generation

module _ (approvals_json : Codec (List Approval)) (rejections_json : Codec (List Rejection)) where
  unfoldable pub check_rejections : String → ChildRef → ℤ → CheckResult
  check_rejections value child generation =
      if value == "" then neither "" else elim (parse_rejections rejections_json value) [
        | err e ↦ neither ("failed to parse rejections: " ++ e)
        | ok rejections ↦ first_active_rejection rejections child generation
      ]

  unfoldable pub check_approvals : String → ChildRef → ℤ → CheckResult
  check_approvals value child generation =
      if value == ""
      then neither "no approval found for child"
      else elim (parse_approvals approvals_json value) [
        | err e ↦ neither ("failed to parse approvals: " ++ e)
        | ok approvals ↦ first_matching_approval approvals child generation
      ]

  -- `CheckFromAnnotations`: a rejection wins.
  unfoldable pub check_from_annotations : String → String → ChildRef → ℤ → CheckResult
  check_from_annotations approvals rejections child generation =
      let result = check_rejections rejections child generation in
      if result.rejected then result else check_approvals approvals child generation

  -- `Checker.Check`, which the handler calls.
  unfoldable pub check : Object → ChildRef → ℤ → CheckResult
  check parent child generation = elim parent.annotations [
    | none ↦ neither "no approvals or rejections on parent"
    | some m ↦
        let result = check_rejections (entry (some m) rejections_annotation) child generation in
        if result.rejected
        then result
        else check_approvals (entry (some m) approvals_annotation) child generation
  ]
