-- ===== src/Admission/Consumption.antt =====
-- pkg/admission/handler.go: what a mutation changes in the cluster, what freezes, and what an update
-- that leaves the spec alone keeps.
use kausality.Base.{String, true, is_some, ◌≡◌, ◌≢◌, ◌↔◌, inl, inr, arith, Result-cases, eq_iff}
use kausality.Approval.Notices.{parse_freeze}
use kausality.Admission.Requests.{Handler}
use kausality.Admission.Parents.{freeze_of}

module _ (h : Handler) where
  open h use {client, objects, hash_username, freeze_json}

  -- Every text of the annotation freezes, also one that cannot be parsed, but "" and "false".
  pub freeze_of_iff :
      (value : String) → (is_some (freeze_of h value) ≡ true) ↔ ((value ≢ "") × (value ≢ "false"))
  unfolding freeze_of
  freeze_of_iff value = elim (Result-cases (parse_freeze freeze_json value)) [
    | inl (freeze, p) ↦ rw p (ground (arith, eq_iff value "", eq_iff value "false"))
    | inr (e, p) ↦ rw p (ground (arith, eq_iff value "", eq_iff value "false"))
  ]
