-- ===== src/Approval/Rejections.antt =====
-- api/v1alpha1/approval_types.go: rejections.
use kausality.Base.{
  String, ℤ, pos, eq_ℤ, Bool, true, ◌==◌, if◌then◌else◌, List, [], wrap, Result, ok,
}
use kausality.Kube.{Codec}
use kausality.Approval.Types.{ChildRef, match_child}

pub record Rejection : Type 0 where
  pub api_version : String
  pub kind : String
  pub name : String
  pub generation : ℤ
  pub reason : String

unfoldable pub matches : Rejection → ChildRef → Bool
unfolding match_child
matches r child = match_child r.api_version r.kind r.name child

-- A generation of 0 means that none was set.
unfoldable pub is_active : Rejection → ℤ → Bool
is_active r parent_generation =
    if eq_ℤ r.generation (pos 0) then true else eq_ℤ r.generation parent_generation

unfoldable pub parse_rejections : Codec (List Rejection) → String → Result (List Rejection)
parse_rejections c value =
    if value == "" then ok [] else wrap "invalid rejections annotation: " (c.unmarshal value)
