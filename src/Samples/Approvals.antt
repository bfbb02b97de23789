-- ===== src/Samples/Approvals.antt =====
-- The theorems on approvals at an object with an "always" approval, a spent one and a rejection.
use kausality.Base.{
  ℤ, not, keep, leb_ℤ, ◌++◌, pos, ◌+◌, ◌≤◌, true, false, not, ◌==◌, List, [], ◌∷◌, some, ok, lookup,
  insert, ◌≡◌, ◌↔◌, refl, ap, inr, length,
}
use mathlib.Core.Bool.{false≢true}
use kausality.Kube.{Object, Codec}
use kausality.Annotations.{approvals_annotation, rejections_annotation}
use kausality.Approval.Types.{Approval, ChildRef, or_once, is_valid, matches, parse_approvals}
use kausality.Approval.Rejections
use kausality.Approval.Rejections.{Rejection, parse_rejections}
use kausality.Approval.Checker.{
  check, check_from_annotations, check_rejections, check_approvals, first_active_rejection,
  first_matching_approval,
}
use kausality.Approval.Actions.{grant, reject, apply_approval, apply_rejection, or_default}
use kausality.Approval.Pruner.{prune}
use kausality.Approval.FirstMatch.{FirstMatch, Valid}
use kausality.Approval.Verdict.{approvals_on, is_rejected, check_iff}
use kausality.Approval.Pruning.{is_stale, prune-used}
use kausality.Approval.Applied.{apply_approval-approves, apply_rejection-rejects}
use kausality.Samples.Fixtures.{parent, parent_key, cluster, cluster-ReadsBack, table, table_trips}

abbrev child : ChildRef
child = record { api_version = "v1"; kind = "ConfigMap"; name = "settings" }

abbrev spent : Approval
spent = record {
  api_version = "v1";
  kind = "Secret";
  name = "*";
  generation = pos 2;
  mode = "generation";
}

abbrev single : Approval
single = record { api_version = "*"; kind = "ConfigMap"; name = "*"; generation = pos 4; mode = "" }

abbrev standing : Approval
standing = record {
  api_version = "v1";
  kind = "ConfigMap";
  name = "settings";
  generation = pos 0;
  mode = "always";
}

abbrev listed : List Approval
listed = spent ∷ single ∷ standing ∷ []

single_first : FirstMatch child listed single
unfolding matches
single_first = record {
  before = spent ∷ [];
  after = standing ∷ [];
  split = refl;
  missed = (refl, tt);
  hit = refl;
}

prune-used_example :
    let result = prune listed (some single) (pos 4) in
    (result.changed ≡ true)
    × (length result.approvals + result.removed_count ≡ 3)
    × (1 ≤ result.removed_count)
    × (result.approvals
        ≡ keep (λ b. not (is_stale (pos 4) b)) (single_first.before ++ single_first.after))
    × ((g' : ℤ)
        → leb_ℤ (pos 4) g' ≡ true
        → keep (λ b. is_valid b g') result.approvals
          ≡ keep (λ b. is_valid b g') (single_first.before ++ single_first.after))
    × (first_matching_approval result.approvals child (pos 4)
        ≡ first_matching_approval
            (keep (λ b. not (is_stale (pos 4) b)) (standing ∷ []))
            child
            (pos 4))
unfolding single_first
prune-used_example = prune-used child listed single (pos 4) single_first (unfold or_once in refl)

-- A parent with these approvals, under a rejection of another child.
abbrev approvals_table : Codec (List Approval)
approvals_table = table "approvals" listed

abbrev refusal : Rejection
refusal = record {
  api_version = "v1";
  kind = "Secret";
  name = "token";
  generation = pos 4;
  reason = "frozen";
}

abbrev rejections_table : Codec (List Rejection)
rejections_table = table "rejections" (refusal ∷ [])

abbrev annotated : Object
annotated = record parent {
  annotations =
      some ((approvals_annotation, "approvals") ∷ (rejections_annotation, "rejections") ∷ []);
}

check_iff_example :
    let result = check approvals_table rejections_table annotated child (pos 4) in
    ((result.rejected ≡ true)
      ↔ (is_rejected approvals_table rejections_table annotated child (pos 4) ≡ true))
    × ((result.approved ≡ true) ↔ (
        (is_rejected approvals_table rejections_table annotated child (pos 4) ≡ false)
        × ((a : Approval) × FirstMatch child
              (approvals_on approvals_table rejections_table annotated)
              a
            × Valid a (pos 4))))
check_iff_example = check_iff approvals_table rejections_table annotated child (pos 4)

-- The first approval of the list approves the child at generation 4 and not at 5.
check_test :
    ((check approvals_table rejections_table annotated child (pos 4)).approved ≡ true)
    × ((check approvals_table rejections_table annotated child (pos 5)).approved ≡ false)
unfolding check check_from_annotations check_rejections check_approvals parse_approvals
    parse_rejections lookup first_active_rejection Rejections.matches first_matching_approval
    matches is_valid approvals_table rejections_table
check_test = (refl, refl)

abbrev granted_table : Codec (List Approval)
unfolding grant
granted_table = table "granted" (grant child "always" (pos 4) [])

abbrev granted : Object
granted = record parent { annotations = some ((approvals_annotation, "granted") ∷ []) }

apply_approval-approves_example :
    (p : Object) × (cluster.get granted parent_key ≡ ok p)
    × (p.generation ≡ pos 4)
    × (is_rejected granted_table rejections_table p child (pos 4)
        ≡ is_rejected granted_table rejections_table parent child (pos 4))
    × ((check granted_table rejections_table p child (pos 4)).approved
        ≡ not (is_rejected granted_table rejections_table parent child (pos 4)))
unfolding apply_approval grant or_once parse_approvals lookup insert
apply_approval-approves_example =
    apply_approval-approves cluster granted_table rejections_table cluster-ReadsBack parent granted
      parent_key child "always" parent [] refl refl
      (table_trips "granted" (grant child "always" (pos 4) [])
        (λ e. false≢true (ap (λ s. s == "") e)) refl)
      (inr (inr (inr refl))) refl

abbrev rejected_table : Codec (List Rejection)
unfolding reject or_default
rejected_table = table "rejected" (reject child (or_default "") (pos 4) [])

abbrev rejected : Object
rejected = record parent { annotations = some ((rejections_annotation, "rejected") ∷ []) }

apply_rejection-rejects_example :
    (p : Object) × (cluster.get rejected parent_key ≡ ok p)
    × (p.generation ≡ pos 4)
    × ((check approvals_table rejected_table p child (pos 4)).rejected ≡ true)
    × ((check approvals_table rejected_table p child (pos 4)).approved ≡ false)
unfolding apply_rejection reject or_default parse_rejections lookup insert
apply_rejection-rejects_example =
    apply_rejection-rejects cluster approvals_table rejected_table cluster-ReadsBack parent rejected
      parent_key child "" parent [] refl refl
      (table_trips "rejected" (reject child (or_default "") (pos 4) [])
        (λ e. false≢true (ap (λ s. s == "") e)) refl)
      refl
