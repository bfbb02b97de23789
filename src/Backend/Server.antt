-- ===== src/Backend/Server.antt =====
-- pkg/backend/server.go: the handlers, over the reports of the store. Reading the request and encoding
-- the answer are I/O: the body, the report that it is decoded to and the path's identifier are
-- arguments, and an answer is a value.
use kausality.Base.{
  Option, Option-cases, Bool-cases, inl, inr, sym, String, ℕ, false, ◌==◌, if◌then◌else◌, List,
  length, none, some, Result, ok, err, lookup, delete, ◌≡◌, refl, ap, ◌∙◌,
}
use kausality.Callback.Reports.{DriftReport, DriftReportPhase, detected, resolved}
use kausality.Backend.{
  Event, added, removed, event_id, left_by, apply, get-apply, StoredReport, Reports, add, get, list,
  remove, count,
}

pub data Body : Type 0 where
  text : String → Body
  acknowledged : Body
  items : List StoredReport → ℕ → Body
  report : StoredReport → Body
  health : ℕ → ℕ → Body
  empty_body : Body

pub record Answer : Type 0 where
  pub status : ℕ
  pub body : Body

unfoldable pub handle_webhook :
    (String → Result DriftReport) → ℕ → Result String → Reports → Answer × Reports
unfolding add
handle_webhook decode now (err e) reports =
    (record { status = 400; body = text "failed to read body" }, reports)
handle_webhook decode now (ok body) reports = elim (decode body) [
  | err e ↦ (record { status = 400; body = text "invalid DriftReport" }, reports)
  | ok r ↦ (record { status = 200; body = acknowledged }, add now r reports)
]

unfoldable pub handle_list : Reports → Answer
unfolding list
handle_list reports = record { status = 200; body = items (list reports) (length (list reports)) }

unfoldable pub handle_get : String → Reports → Answer
unfolding get
handle_get id reports =
    if id == "" then record { status = 400; body = text "missing id" } else elim (get id reports) [
      | none ↦ record { status = 404; body = text "not found" }
      | some r ↦ record { status = 200; body = report r }
    ]

unfoldable pub handle_delete : String → Reports → Answer × Reports
unfolding remove
handle_delete id reports =
    if id == ""
    then (record { status = 400; body = text "missing id" }, reports)
    else (record { status = 204; body = empty_body }, remove id reports)

unfoldable pub handle_health : ℕ → Reports → Answer
unfolding count
handle_health now reports = record { status = 200; body = health (count reports) now }

-- What `GET` answers for an identifier under which the store has this.
abbrev pub found : Option StoredReport → Answer
found none = record { status = 404; body = text "not found" }
found (some r) = record { status = 200; body = report r }

get-found :
    (id : String) (reports : Reports)
    → (id == "") ≡ false
    → handle_get id reports ≡ found (lookup id reports)
unfolding handle_get get
get-found id reports named = elim (Option-cases (lookup id reports)) [
  | inl e ↦ rw (named, e, handle_get) refl
  | inr (r, e) ↦ rw (named, e, handle_get) refl
]

get-applied :
    (e : Event) (id : String) (reports : Reports)
    → (id == "") ≡ false
    → handle_get id (apply e reports)
      ≡ (if event_id e == id then found (left_by e) else handle_get id reports)
unfolding get
get-applied e id reports named =
    get-found id (apply e reports) named
    ∙ ap found (get-apply e id reports)
    ∙ elim (Bool-cases (event_id e == id)) [
      | inl same ↦ rw same refl
      | inr other ↦ rw other (sym (get-found id reports named))
    ]

webhook-posted :
    (decode : String → Result DriftReport) (now : ℕ) (body : String) (r : DriftReport)
    (reports : Reports)
    → decode body ≡ ok r
    → handle_webhook decode now (ok body) reports
      ≡ (record { status = 200; body = acknowledged }, add now r reports)
unfolding handle_webhook
webhook-posted decode now body r reports e = rw (e, handle_webhook) refl

delete-named :
    (id : String) (reports : Reports)
    → (id == "") ≡ false
    → handle_delete id reports ≡ (record { status = 204; body = empty_body }, delete id reports)
unfolding handle_delete remove
delete-named id reports named = rw (named, handle_delete) refl

-- A report that can be decoded is acknowledged. Afterwards its identifier has the report if it is of
-- the phase "Detected", and is not found if it is resolved; and the deletion of an identifier answers
-- 204, after which it is not found. Neither of the two changes what any other identifier has.
-- Identifiers that are looked up and deleted are not empty.
pub handle_webhook-get :
    (decode : String → Result DriftReport) (now : ℕ) (body : String) (r : DriftReport)
    (id removed_id : String) (reports : Reports)
    → decode body ≡ ok r
    → (id == "") ≡ false
    → (removed_id == "") ≡ false
    → let posted = handle_webhook decode now (ok body) reports in
      let deletion = handle_delete removed_id reports in
      (posted.0 ≡ record { status = 200; body = acknowledged })
      × (handle_get id posted.1 ≡ (
          if r.id == id
          then elim r.phase [
            | detected ↦ record {
              status = 200;
              body = report (record { report = r; received_at = now });
            }
            | resolved ↦ record { status = 404; body = text "not found" }
          ]
          else handle_get id reports))
      × (deletion.0 ≡ record { status = 204; body = empty_body })
      × (handle_get id deletion.1 ≡ (
          if removed_id == id
          then record { status = 404; body = text "not found" }
          else handle_get id reports))
unfolding remove
handle_webhook-get decode now body r id removed_id reports e named removed_named =
    let posted = webhook-posted decode now body r reports e in
    let deletion = delete-named removed_id reports removed_named in
    (
      ap (λ (x : Answer × Reports). x.0) posted,
      ap (λ (x : Answer × Reports). handle_get id x.1) posted
          ∙ get-applied (added now r) id reports named
          ∙ ap (λ a. if r.id == id then a else handle_get id reports)
              (found_by r.phase (record { report = r; received_at = now })),
      ap (λ (x : Answer × Reports). x.0) deletion,
      ap (λ (x : Answer × Reports). handle_get id x.1) deletion
          ∙ get-applied (removed removed_id) id reports named,
    )
  where
    found_by :
        (phase : DriftReportPhase) (stored : StoredReport)
        → found (elim phase [ detected ↦ some stored | resolved ↦ none ])
          ≡ elim phase as (λ _. Answer) [
            | detected ↦ record { status = 200; body = report stored }
            | resolved ↦ record { status = 404; body = text "not found" }
          ]
    found_by detected stored = refl
    found_by resolved stored = refl
