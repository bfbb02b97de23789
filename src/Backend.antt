-- ===== src/Backend.antt =====
-- pkg/backend/store.go: the reports that a backend shows. The modules below it are the server and the
-- terminal interface, pkg/backend/server.go and tui.go.
pub mod Server
pub mod Screen
pub mod Cursor
use Prim.Native.String.{◌++◌}
use kausality.Base.{
  String, ℕ, ◌==◌, if◌then◌else◌, List, [], ◌∷◌, map, length, Option, none, some, Dict, lookup,
  insert, delete, lookup-insert, lookup-delete, eq_refl, ne→eq-false, ◌≡◌, ◌≢◌, refl, sym, ap, ◌∙◌,
}
use kausality.Callback.Reports.{
  DriftReport, DriftReportPhase, detected, resolved, ObjectReference, generate_drift_id,
  generate_resolution_id, take, hash_object_ref,
}
use kausality.Callback.Identity.{IsPlainRef, generate_drift_id-eq_iff, resolution-drift}

-- `received_at` is the clock's reading.
pub record StoredReport : Type 0 where
  pub report : DriftReport
  pub received_at : ℕ

abbrev pub Reports : Type 0
Reports = Dict StoredReport

-- `Add` at a time.
unfoldable pub add : ℕ → DriftReport → Reports → Reports
unfolding insert delete
add now report reports = elim report.phase [
  | resolved ↦ delete report.id reports
  | detected ↦ insert report.id (record { report = report; received_at = now }) reports
]

unfoldable pub get : String → Reports → Option StoredReport
unfolding lookup
get id reports = lookup id reports

unfoldable pub list : Reports → List StoredReport
list reports = map (λ e. e.1) reports

unfoldable pub remove : String → Reports → Reports
unfolding delete
remove id reports = delete id reports

unfoldable pub count : Reports → ℕ
count reports = length reports

-- What happens to the store of a backend.
pub data Event : Type 0 where
  added : ℕ → DriftReport → Event
  removed : String → Event

abbrev pub apply : Event → Reports → Reports
apply (added now report) reports = add now report reports
apply (removed id) reports = remove id reports

-- The store after a history, whose last event stands first.
abbrev pub after : List Event → Reports
after [] = []
after (e ∷ earlier) = apply e (after earlier)

abbrev pub event_id : Event → String
event_id (added now report) = report.id
event_id (removed id) = id

-- What an event leaves under its identifier.
abbrev pub left_by : Event → Option StoredReport
left_by (added now report) = elim report.phase [
  | detected ↦ some (record { report = report; received_at = now })
  | resolved ↦ none
]
left_by (removed id) = none

-- The last event on the identifier decides.
abbrev pub latest : String → List Event → Option StoredReport
latest id [] = none
latest id (e ∷ earlier) =
    let rest = latest id earlier in if event_id e == id then left_by e else rest

lookup-by_phase :
    (phase : DriftReportPhase) (key id : String) (stored : StoredReport) (reports : Reports)
    → lookup id
        (elim phase [ resolved ↦ delete key reports | detected ↦ insert key stored reports ])
      ≡ (if key == id
          then elim phase [ detected ↦ some stored | resolved ↦ none ]
          else lookup id reports)
lookup-by_phase detected key id stored reports = lookup-insert key id stored reports
lookup-by_phase resolved key id stored reports = lookup-delete key id reports

pub get-apply :
    (e : Event) (id : String) (reports : Reports)
    → get id (apply e reports) ≡ (if event_id e == id then left_by e else get id reports)
unfolding get add remove
get-apply (added now report) id reports =
    lookup-by_phase report.phase report.id id (record { report = report; received_at = now })
      reports
get-apply (removed key) id reports = lookup-delete key id reports

-- After any history of the store, `Get` of an identifier gives what the last event on that
-- identifier left: the report if that one was detected, and nothing if it was resolved or removed.
pub get-after : (id : String) (events : List Event) → get id (after events) ≡ latest id events
unfolding get
get-after id [] = refl
get-after id (e ∷ earlier) =
    get-apply e id (after earlier)
    ∙ ap (λ o. if event_id e == id then left_by e else o) (get-after id earlier)

-- A report stays in the store when the resolution of its drift arrives: if the digest does not
-- confuse the inputs of the two identifiers and the difference is not empty, `Get` still gives it.
pub resolved-stays :
    (digest : String → String) (parent child : ObjectReference) (diff : String) (now later : ℕ)
    (report resolution : DriftReport) (earlier : List Event)
    → IsPlainRef parent
    → IsPlainRef child
    → diff ≢ ""
    → (let input = hash_object_ref parent ++ (hash_object_ref child ++ diff) in
        let resolved_input = hash_object_ref parent ++ (hash_object_ref child ++ "") in
        take 16 (digest input) ≡ take 16 (digest resolved_input) → input ≡ resolved_input)
    → report.id ≡ generate_drift_id digest parent child diff
    → report.phase ≡ detected
    → resolution.id ≡ generate_resolution_id digest parent child
    → get report.id (after (added later resolution ∷ added now report ∷ earlier))
      ≡ some (record { report = report; received_at = now })
resolved-stays digest parent child diff now later report resolution earlier plain_parent plain_child
      differs apart id phase resolution_id =
    let other : resolution.id ≢ report.id = λ e.
      differs
        ((generate_drift_id-eq_iff digest parent child parent child diff "" plain_parent plain_child
            plain_parent plain_child apart).0
          (sym id ∙ sym e ∙ resolution_id ∙ resolution-drift digest parent child)).1.1 in
    get-after report.id (added later resolution ∷ added now report ∷ earlier)
    ∙ simp (ne→eq-false resolution.id report.id other, eq_refl, phase)
