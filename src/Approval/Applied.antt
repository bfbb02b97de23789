-- ===== src/Approval/Applied.antt =====
-- pkg/approval/actions.go and checker.go together: an action, and the check that follows it.
use kausality.Base.{
  String, Bool, true, false, not, ◌==◌, List, [], Option, none, some, Dict, insert, lookup,
  option_or, lookup-insert, ok, wrap, wrap-eq-ok, ◌>>=◌, >>=-eq-ok, ok-injective, subst, Bool-cases,
  ◌≡◌, refl, sym, ap, ◌∙◌, ◌⊎◌, inl, inr, arith, if◌then◌else◌, is_empty, eq_iff,
}
use kausality.Annotations.{approvals_annotation, rejections_annotation}
use kausality.Kube.{Client, Codec, Object, ObjectRef, RoundTrips, SameMetadata, ReadsBack, entry}
use kausality.Approval.Types.{Approval, ChildRef, parse_approvals, or_once}
use kausality.Approval.Rejections.{Rejection, parse_rejections}
use kausality.Approval.Checker.{check}
use kausality.Approval.Actions.{
  annotations_of, fetch_object, fetch_parent, set_annotations, update_approvals, apply_approval,
  grant, reject, update_rejections, apply_rejection, or_default,
}
use kausality.Approval.Verdict.{approvals_on, rejections_on, is_rejected, check-parts}
use kausality.Approval.Effects.{
  IsMode, grant-approves, grant-is_empty, reject-rejects, reject-is_empty,
}

entry_annotations_of :
    (m : Option (Dict String)) (k : String) → entry (some (option_or m [])) k ≡ entry m k
unfolding lookup
entry_annotations_of none k = refl
entry_annotations_of (some m) k = refl

fetch_parent-eq-ok :
    (c : Client) (w : c.World) (r : ObjectRef) (o : Object)
    → fetch_parent c w r ≡ ok o
    → c.get w r ≡ ok o
unfolding fetch_parent fetch_object
fetch_parent-eq-ok c w r o h =
    let (_, _, got) =
      >>=-eq-ok (wrap "invalid API version: " (c.parse_group_version r.api_version)) _
        (wrap-eq-ok "failed to fetch parent: " _ h) in
    got

module _ (c : Client) (json : Codec (List Approval)) where
  -- An update of the approvals by a list that is not empty writes its text and nothing else.
  update_approvals-eq-ok :
      (w : c.World) (o : Object) (m : Dict String) (approvals : List Approval) (w' : c.World)
      (r : RoundTrips json approvals)
      → is_empty approvals ≡ false
      → update_approvals c json w o m approvals ≡ ok w'
      → c.update w (record o { annotations = some (insert approvals_annotation r.text m) }) ≡ ok w'
  unfolding update_approvals set_annotations
  update_approvals-eq-ok w o m approvals w' r e h =
      wrap-eq-ok "failed to update object: " _ (rw (e, r.encodes) at h)

  apply_approval-eq-ok :
      (w : c.World) (parent : ObjectRef) (child : ChildRef) (mode : String) (w' : c.World)
      (o : Object) (approvals : List Approval)
      → c.get w parent ≡ ok o
      → parse_approvals json (entry o.annotations approvals_annotation) ≡ ok approvals
      → apply_approval c json w parent child mode ≡ ok w'
      → update_approvals c json w o
          (annotations_of o)
          (grant child (or_once mode) o.generation approvals)
        ≡ ok w'
  unfolding apply_approval
  apply_approval-eq-ok w parent child mode w' o approvals got parsed h =
      let (o', fetched, h1) = >>=-eq-ok (fetch_parent c w parent) _ h in
      let same : o' ≡ o = ok-injective (sym (fetch_parent-eq-ok c w parent o' fetched) ∙ got) in
      let h2 =
        subst
          (λ x.
            (wrap "failed to parse existing approvals: "
                (parse_approvals json (entry (some (annotations_of x)) approvals_annotation))
              >>= λ as'.
                  update_approvals c json w x (annotations_of x)
                    (grant child (or_once mode) x.generation as'))
            ≡ ok w')
          same h1 in
      let (xs, parsed', h3) = >>=-eq-ok _ _ h2 in
      let same_list : xs ≡ approvals = ok-injective (
        sym (wrap-eq-ok "failed to parse existing approvals: " _ parsed')
        ∙ ap (parse_approvals json) (entry_annotations_of o.annotations approvals_annotation)
        ∙ parsed) in
      subst
        (λ ys.
          update_approvals c json w o (annotations_of o)
            (grant child (or_once mode) o.generation ys)
          ≡ ok w')
        same_list h3

module _ (c : Client) (json : Codec (List Rejection)) where
  update_rejections-eq-ok :
      (w : c.World) (o : Object) (m : Dict String) (rejections : List Rejection) (w' : c.World)
      (r : RoundTrips json rejections)
      → is_empty rejections ≡ false
      → update_rejections c json w o m rejections ≡ ok w'
      → c.update w (record o { annotations = some (insert rejections_annotation r.text m) }) ≡ ok w'
  unfolding update_rejections set_annotations
  update_rejections-eq-ok w o m rejections w' r e h =
      wrap-eq-ok "failed to update object: " _ (rw (e, r.encodes) at h)

  apply_rejection-eq-ok :
      (w : c.World) (parent : ObjectRef) (child : ChildRef) (reason : String) (w' : c.World)
      (o : Object) (rejections : List Rejection)
      → c.get w parent ≡ ok o
      → parse_rejections json (entry o.annotations rejections_annotation) ≡ ok rejections
      → apply_rejection c json w parent child reason ≡ ok w'
      → update_rejections c json w o
          (annotations_of o)
          (reject child (or_default reason) o.generation rejections)
        ≡ ok w'
  unfolding apply_rejection
  apply_rejection-eq-ok w parent child reason w' o rejections got parsed h =
      let (o', fetched, h1) = >>=-eq-ok (fetch_parent c w parent) _ h in
      let same : o' ≡ o = ok-injective (sym (fetch_parent-eq-ok c w parent o' fetched) ∙ got) in
      let h2 =
        subst
          (λ x.
            (wrap "failed to parse existing rejections: "
                (parse_rejections json (entry (some (annotations_of x)) rejections_annotation))
              >>= λ as'.
                  update_rejections c json w x (annotations_of x)
                    (reject child (or_default reason) x.generation as'))
            ≡ ok w')
          same h1 in
      let (xs, parsed', h3) = >>=-eq-ok _ _ h2 in
      let same_list : xs ≡ rejections = ok-injective (
        sym (wrap-eq-ok "failed to parse existing rejections: " _ parsed')
        ∙ ap (parse_rejections json) (entry_annotations_of o.annotations rejections_annotation)
        ∙ parsed) in
      subst
        (λ ys.
          update_rejections c json w o (annotations_of o)
            (reject child (or_default reason) o.generation ys)
          ≡ ok w')
        same_list h3

or_once-IsMode : (mode : String) → (mode ≡ "") ⊎ IsMode mode → IsMode (or_once mode)
unfolding or_once
or_once-IsMode mode h = ground (arith, eq_iff mode "")

-- What the checker reads of the two annotations after one of them was written.
written_entry :
    (k j v : String) (m : Option (Dict String)) (p : Object) (o : Object)
    → SameMetadata (record o { annotations = some (insert k v (option_or m [])) }) p
    → entry p.annotations j ≡ (if k == j then v else entry m j)
written_entry k j v m p o same =
    ap (λ x. option_or x "") (sym (same.same_annotations j))
    ∙ ap (λ x. option_or x "") (lookup-insert k j v (option_or m []))
    ∙ elim (Bool-cases (k == j)) [ inl e ↦ rw e | inr e ↦ rw e (entry_annotations_of m j) ]

parse_approvals_of :
    (json : Codec (List Approval)) (approvals : List Approval) (r : RoundTrips json approvals)
    → parse_approvals json r.text ≡ ok approvals
unfolding parse_approvals
parse_approvals_of json approvals r = ground (arith, eq_iff r.text "", r.decodes, r.not_empty)

parse_rejections_of :
    (json : Codec (List Rejection)) (rejections : List Rejection) (r : RoundTrips json rejections)
    → parse_rejections json r.text ≡ ok rejections
unfolding parse_rejections
parse_rejections_of json rejections r = ground (arith, eq_iff r.text "", r.decodes, r.not_empty)

not_lem : (b : Bool) → (if b then false else true) ≡ not b
not_lem true = refl
not_lem false = refl

-- A client whose updates are read back, a parent that the client returns, and a documented mode or
-- none. If the approvals on the parent can be parsed and the list that the action writes survives
-- its encoding, then after `ApplyApproval` succeeded the parent has the same generation, the
-- rejections in force for the child are those from before, and `Check` approves the child exactly
-- when none of these rejects it.
pub apply_approval-approves :
    (c : Client) (approvals_json : Codec (List Approval)) (rejections_json : Codec (List Rejection))
    (reads_back : ReadsBack c) (w w' : c.World) (parent : ObjectRef) (child : ChildRef)
    (mode : String) (o : Object) (approvals : List Approval)
    → c.get w parent ≡ ok o
    → parse_approvals approvals_json (entry o.annotations approvals_annotation) ≡ ok approvals
    → RoundTrips approvals_json (grant child (or_once mode) o.generation approvals)
    → (mode ≡ "") ⊎ IsMode mode
    → apply_approval c approvals_json w parent child mode ≡ ok w'
    → (p : Object) × (c.get w' parent ≡ ok p)
      × (p.generation ≡ o.generation)
      × (is_rejected approvals_json rejections_json p child o.generation
          ≡ is_rejected approvals_json rejections_json o child o.generation)
      × ((check approvals_json rejections_json p child o.generation).approved
          ≡ not (is_rejected approvals_json rejections_json o child o.generation))
apply_approval-approves c aj rj reads_back w w' parent child mode o approvals got parsed trips known
      h =
    let written =
      update_approvals-eq-ok c aj w o (annotations_of o) _ w' trips
        (grant-is_empty child (or_once mode) o.generation approvals)
        (apply_approval-eq-ok c aj w parent child mode w' o approvals got parsed h) in
    let (p, read, same) = reads_back w parent o _ w' got written in
    let entries =
      λ (j : String). written_entry approvals_annotation j trips.text o.annotations p o same in
    let rejects : is_rejected aj rj p child o.generation ≡ is_rejected aj rj o child o.generation =
      rw (entries rejections_annotation) in
    let listed : approvals_on aj rj p ≡ grant child (or_once mode) o.generation approvals =
      rw (entries approvals_annotation, parse_approvals_of aj _ trips) in
    let granted =
      grant-approves child (or_once mode) o.generation approvals (or_once-IsMode mode known) in
    let (_, approves) = check-parts aj rj p child o.generation in
    (
      p,
      read,
      sym same.same_generation,
      rejects,
      approves ∙ rw (rejects, listed, granted) (not_lem (is_rejected aj rj o child o.generation)),
    )

-- A client whose updates are read back, a parent that the client returns, and any reason. If the
-- rejections on the parent can be parsed and the list that the action writes survives its encoding,
-- then after `ApplyRejection` succeeded the parent has the same generation, and `Check` rejects the
-- child at it and does not approve it.
pub apply_rejection-rejects :
    (c : Client) (approvals_json : Codec (List Approval)) (rejections_json : Codec (List Rejection))
    (reads_back : ReadsBack c) (w w' : c.World) (parent : ObjectRef) (child : ChildRef)
    (reason : String) (o : Object) (rejections : List Rejection)
    → c.get w parent ≡ ok o
    → parse_rejections rejections_json (entry o.annotations rejections_annotation) ≡ ok rejections
    → RoundTrips rejections_json (reject child (or_default reason) o.generation rejections)
    → apply_rejection c rejections_json w parent child reason ≡ ok w'
    → (p : Object) × (c.get w' parent ≡ ok p)
      × (p.generation ≡ o.generation)
      × ((check approvals_json rejections_json p child o.generation).rejected ≡ true)
      × ((check approvals_json rejections_json p child o.generation).approved ≡ false)
apply_rejection-rejects c aj rj reads_back w w' parent child reason o rejections got parsed trips
      h =
    let written =
      update_rejections-eq-ok c rj w o (annotations_of o) _ w' trips
        (reject-is_empty child (or_default reason) o.generation rejections)
        (apply_rejection-eq-ok c rj w parent child reason w' o rejections got parsed h) in
    let (p, read, same) = reads_back w parent o _ w' got written in
    let listed : rejections_on aj rj p ≡ reject child (or_default reason) o.generation rejections =
      rw (
        written_entry rejections_annotation rejections_annotation trips.text o.annotations p o same,
        parse_rejections_of rj _ trips,
      ) in
    let refused : is_rejected aj rj p child o.generation ≡ true =
      rw listed (reject-rejects child (or_default reason) o.generation rejections) in
    let (rejects, approves) = check-parts aj rj p child o.generation in
    (p, read, sym same.same_generation, rejects ∙ refused, approves ∙ rw refused)
