-- ===== src/Approval/Types.antt =====
-- api/v1alpha1/approval_types.go: approvals, what they match, and their parser.
use kausality.Base.{
  String, ℤ, eq_ℤ, Bool, true, false, ◌&&◌, ◌==◌, if◌then◌else◌, List, [], is_empty, wrap, Result,
  ok,
}
use kausality.Annotations.{approval_mode_once, approval_mode_generation, approval_mode_always}
use kausality.Kube.{Codec}

pub record Approval : Type 0 where
  pub api_version : String
  pub kind : String
  pub name : String
  pub generation : ℤ
  pub mode : String

pub record ChildRef : Type 0 where
  pub api_version : String
  pub kind : String
  pub name : String

unfoldable pub match_field : String → String → Bool
match_field pattern value = if pattern == "*" then true else pattern == value

unfoldable pub match_child : String → String → String → ChildRef → Bool
unfolding match_field
match_child api_version kind name child =
    match_field api_version child.api_version
    && (match_field kind child.kind && match_field name child.name)

unfoldable pub matches : Approval → ChildRef → Bool
unfolding match_child
matches a child = match_child a.api_version a.kind a.name child

-- An empty mode stands for "once".
unfoldable pub or_once : String → String
or_once mode = if mode == "" then approval_mode_once else mode

-- The switch of `IsValid` on the mode.
unfoldable pub valid_under : String → ℤ → ℤ → Bool
valid_under mode generation parent_generation =
    if mode == approval_mode_always
    then true
    else if mode == approval_mode_once
    then eq_ℤ generation parent_generation
    else if mode == approval_mode_generation
    then eq_ℤ generation parent_generation
    else false

unfoldable pub is_valid : Approval → ℤ → Bool
unfolding or_once valid_under
is_valid a parent_generation = valid_under (or_once a.mode) a.generation parent_generation

unfoldable pub parse_approvals : Codec (List Approval) → String → Result (List Approval)
parse_approvals c value =
    if value == "" then ok [] else wrap "invalid approvals annotation: " (c.unmarshal value)

unfoldable pub marshal_approvals : Codec (List Approval) → List Approval → Result String
marshal_approvals c approvals = if is_empty approvals then ok "" else c.marshal approvals
