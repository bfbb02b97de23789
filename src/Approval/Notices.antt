-- ===== src/Approval/Notices.antt =====
-- api/v1alpha1/approval_types.go: the freeze and the snooze of a parent.
use kausality.Base.{
  String, ℕ, Bool, false, ◌==◌, if◌then◌else◌, Option, none, some, wrap, Result, ok, err, ltb,
}
use kausality.Kube.{Codec}

-- A time is a number of nanoseconds since the zero time.
pub record Freeze : Type 0 where
  pub user : String
  pub message : String
  pub at : ℕ

pub record Snooze : Type 0 where
  pub expiry : ℕ
  pub user : String
  pub message : String

abbrev pub some_of {ℓ} : {A : Type ℓ} → Result A → Result (Option A)
some_of (ok a) = ok (some a)
some_of (err e) = err e

-- "true" is the legacy format.
unfoldable pub parse_freeze : Codec Freeze → String → Result (Option Freeze)
parse_freeze c value =
    if value == ""
    then ok none
    else if value == "true"
    then ok (some (record { user = ""; message = ""; at = 0 }))
    else some_of (wrap "invalid freeze annotation: " (c.unmarshal value))

unfoldable pub marshal_freeze : Codec Freeze → Option Freeze → Result String
marshal_freeze c none = ok ""
marshal_freeze c (some f) = c.marshal f

-- A plain RFC 3339 time is the legacy format; `parse_time` is time.Parse.
unfoldable pub parse_snooze : Codec Snooze → (String → Result ℕ) → String → Result (Option Snooze)
parse_snooze c parse_time value = if value == "" then ok none else elim (parse_time value) [
  | ok t ↦ ok (some (record { expiry = t; user = ""; message = "" }))
  | err e ↦ some_of (wrap "invalid snooze annotation: " (c.unmarshal value))
]

unfoldable pub marshal_snooze : Codec Snooze → Option Snooze → Result String
marshal_snooze c none = ok ""
marshal_snooze c (some s) = c.marshal s

-- The clock is an argument.
unfoldable pub is_active : Option Snooze → ℕ → Bool
is_active none now = false
is_active (some s) now = ltb now s.expiry
