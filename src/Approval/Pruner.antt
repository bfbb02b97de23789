-- ===== src/Approval/Pruner.antt =====
-- pkg/approval/pruner.go: the removal of used and of stale approvals.
use kausality.Base.{
  String, ℕ, ℤ, eq_ℤ, leb_ℤ, eqb, ◌-◌, Bool, true, false, not, ◌&&◌, ◌==◌, if◌then◌else◌, List, [],
  ◌∷◌, Option, none, some, length,
}
use kausality.Annotations.{approval_mode_once, approval_mode_generation, approval_mode_always}
use kausality.Approval.Types.{Approval, ChildRef, matches, or_once}

-- An approval read as the reference of a child, as `ConsumeOnce` does.
abbrev pub as_child : Approval → ChildRef
as_child a = record { api_version = a.api_version; kind = a.kind; name = a.name }

-- The test of the loop of `ConsumeOnce`.
unfoldable pub is_consumed : Approval → Approval → Bool
is_consumed consumed a =
    matches a (as_child consumed)
    && (eq_ℤ a.generation consumed.generation && (a.mode == consumed.mode))

-- The loop of `ConsumeOnce`; `found` holds back every later removal.
unfoldable pub consume_from : Approval → Bool → List Approval → List Approval × Bool
consume_from consumed found [] = ([], found)
consume_from consumed found (a ∷ more) =
    let hit = not found && is_consumed consumed a in
    let (rest, found') = consume_from consumed (if hit then true else found) more in
    if hit then (rest, found') else (a ∷ rest, found')

unfoldable pub consume_once : List Approval → Option Approval → List Approval × Bool
consume_once approvals none = (approvals, false)
consume_once approvals (some consumed) =
    if or_once consumed.mode == approval_mode_once
    then consume_from consumed false approvals
    else (approvals, false)

-- The switch of `PruneStale` on the mode: whether an approval is kept.
unfoldable pub kept_under : String → ℤ → ℤ → Bool
kept_under mode generation parent_generation =
    if mode == approval_mode_always
    then true
    else if mode == approval_mode_once
    then leb_ℤ parent_generation generation
    else if mode == approval_mode_generation
    then leb_ℤ parent_generation generation
    else true

unfoldable pub is_kept : ℤ → Approval → Bool
unfolding or_once kept_under
is_kept parent_generation a = kept_under (or_once a.mode) a.generation parent_generation

unfoldable pub prune_stale : List Approval → ℤ → List Approval
prune_stale [] parent_generation = []
prune_stale (a ∷ more) parent_generation =
    let rest = prune_stale more parent_generation in
    if is_kept parent_generation a then a ∷ rest else rest

pub record PruneResult : Type 0 where
  pub approvals : List Approval
  pub changed : Bool
  pub removed_count : ℕ

unfoldable pub prune : List Approval → Option Approval → ℤ → PruneResult
prune approvals consumed parent_generation =
    let result = prune_stale (consume_once approvals consumed).0 parent_generation in
    record {
      approvals = result;
      changed = not (eqb (length result) (length approvals));
      removed_count = length approvals - length result;
    }
