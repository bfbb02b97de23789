-- ===== src/Backend/Cursor.antt =====
-- pkg/backend/tui.go: the cursor, and what a dismissal removes, in whatever order messages come.
use kausality.Base.{
  ℕ, ◌+◌, ◌-◌, ◌<◌, leb, ltb, ltb→lt, ltb-false→le, le→leb, Bool, true, false, ◌&&◌, &&-eq-true,
  if◌then◌else◌, List, length, Option, none, some, get_elem?, get_elem-in_range, ◌≡◌, ◌⊎◌, refl,
  sym, arith, inl, inr, Bool-cases, Option-cases,
}
use mathlib.Core.Bool.{false≢true}
use kausality.Backend.{StoredReport, Reports, remove}
use kausality.Backend.Screen.{
  view_list, view_detail, Binding, up, down, enter, escape, dismiss, quit, Model, Command,
  refresh_items, refresh_and_tick, tea_quit, Msg, window_size, pressed, tick, refreshed,
  report_arrived, other_msg, Next, take_items, dismiss_selected, handle_key, update,
}

-- The cursor is on an item, if there are any.
abbrev pub IsOn : Model → Type 0
IsOn m = (length m.items ≡ 0) ⊎ (m.cursor < length m.items)

-- The store is as before, or has lost the report under the cursor.
abbrev pub Removes : Model → Reports → Next → Type 0
Removes m reports n =
    (n.reports ≡ reports)
    ⊎ ((item : StoredReport) × (get_elem? m.items m.cursor ≡ some item)
        × (n.reports ≡ remove item.report.id reports)
        × (n.command ≡ some refresh_items))

Good : Model → Reports → Option Next → Type 0
Good m reports none = ⊥
Good m reports (some n) = IsOn n.model × Removes m reports n

Good-if :
    (m : Model) (reports : Reports) (b : Bool) (x y : Option Next)
    → Good m reports x
    → Good m reports y
    → Good m reports (if b then x else y)
Good-if m reports true x y hx hy = hx
Good-if m reports false x y hx hy = hy

keeps :
    (m n : Model) (reports : Reports) (c : Option Command)
    → IsOn n
    → Good m reports (some (record { model = n; reports = reports; command = c }))
unfolding Good
keeps m n reports c on = (on, inl refl)

dismiss-Good :
    (m : Model) (reports : Reports) → IsOn m → Good m reports (dismiss_selected m reports)
unfolding dismiss_selected Good
dismiss-Good m reports on =
    elim (Bool-cases (ltb 0 (length m.items) && ltb m.cursor (length m.items))) [
      | inr e ↦ rw e (on, inl refl)
      | inl e ↦
          let inside =
            ltb→lt m.cursor (length m.items)
              ((&&-eq-true (ltb 0 (length m.items)) (ltb m.cursor (length m.items))).0 e).1 in
          let found = get_elem-in_range m.items m.cursor inside in
          elim (Option-cases (get_elem? m.items m.cursor)) [
            | inl missing ↦ absurd (false≢true (rw missing at found))
            | inr (item, there) ↦ rw (e, there) (on, inr (item, there, refl, refl))
          ]
    ]

module _ (m : Model) (on : IsOn m) where
  moved_up : IsOn (if ltb 0 m.cursor then record m { cursor = m.cursor - 1 } else m)
  moved_up = elim (Bool-cases (ltb 0 m.cursor)) [
    | inr e ↦ rw e on
    | inl e ↦
        rw e
          (elim on [ inl none_there ↦ inl none_there | inr inside ↦ inr (omega (arith, inside)) ])
  ]

  moved_down :
      IsOn (if ltb (m.cursor + 1) (length m.items) then record m { cursor = m.cursor + 1 } else m)
  moved_down = elim (Bool-cases (ltb (m.cursor + 1) (length m.items))) [
    | inl e ↦ rw e (inr (ltb→lt (m.cursor + 1) (length m.items) e))
    | inr e ↦ rw e on
  ]

  opened : IsOn (if ltb 0 (length m.items) then record m { view = view_detail } else m)
  opened = elim (Bool-cases (ltb 0 (length m.items))) [ inl e ↦ rw e on | inr e ↦ rw e on ]

handle_key-Good :
    {Key : Type 0} (matches : Binding → Key → Bool) (k : Key) (m : Model) (reports : Reports)
    → IsOn m
    → Good m reports (handle_key matches k m reports)
unfolding handle_key
handle_key-Good matches k m reports on =
    Good-if m reports ((elim m.view [ view_list ↦ false | view_detail ↦ true ]) && matches escape k)
      _ _ (keeps m _ reports none on)
      (Good-if m reports (matches quit k) _ _ (keeps m _ reports (some tea_quit) on) (
        Good-if m reports (matches up k) _ _ (keeps m _ reports none (moved_up m on)) (
          Good-if m reports (matches down k) _ _ (keeps m _ reports none (moved_down m on)) (
            Good-if m reports (matches enter k) _ _ (keeps m _ reports none (opened m on)) (
              Good-if m reports (matches escape k) _ _ (keeps m _ reports none on) (
                Good-if m reports (matches dismiss k) _ _ (dismiss-Good m reports on)
                  (keeps m _ reports none on)))))))

not_clamped : (n c : ℕ) → (leb n c && ltb 0 n) ≡ false → (n ≡ 0) ⊎ (c < n)
not_clamped n c e = elim (Bool-cases (ltb 0 n)) [
  | inr none_there ↦ inl (omega (arith, ltb-false→le 0 n none_there))
  | inl some_there ↦ elim (Bool-cases (leb n c)) [
    | inl beyond ↦ absurd (false≢true (sym (rw (beyond, some_there) at e)))
    | inr inside ↦ inr (ground (arith, le→leb n c))
  ]
]

take_items-IsOn : (items : List StoredReport) (m : Model) → IsOn (take_items items m)
unfolding take_items
take_items-IsOn items m = elim (Bool-cases (leb (length items) m.cursor && ltb 0 (length items))) [
  | inl e ↦
      let parts = (&&-eq-true (leb (length items) m.cursor) (ltb 0 (length items))).0 e in
      let some_there = ltb→lt 0 (length items) parts.1 in rw e (inr (omega (arith, some_there)))
  | inr e ↦ rw e (not_clamped (length items) m.cursor e)
]

update-Good :
    {Key : Type 0} (matches : Binding → Key → Bool) (msg : Msg Key) (m : Model) (reports : Reports)
    → IsOn m
    → Good m reports (update matches msg m reports)
unfolding update
update-Good matches (pressed k) m reports on = handle_key-Good matches k m reports on
update-Good matches (window_size w h) m reports on = keeps m _ reports none on
update-Good matches tick m reports on = keeps m m reports (some refresh_and_tick) on
update-Good matches (refreshed items) m reports on =
    keeps m (take_items items m) reports none (take_items-IsOn items m)
update-Good matches report_arrived m reports on = keeps m m reports (some refresh_items) on
update-Good matches other_msg m reports on = keeps m m reports none on

Good-parts :
    (m : Model) (reports : Reports) (o : Option Next)
    → Good m reports o
    → (n : Next) × (o ≡ some n) × IsOn n.model × Removes m reports n
unfolding Good
Good-parts m reports none g = absurd g
Good-parts m reports (some n) g = (n, refl, g.0, g.1)

-- In any state whose cursor is on an item if there are any, no message makes `Update` index out of
-- range. Afterwards the cursor is on an item if there are any, however many items a refresh brings,
-- and the store is as before, or it has lost the report under the cursor and a refresh is started.
pub update-IsOn :
    {Key : Type 0} (matches : Binding → Key → Bool) (msg : Msg Key) (m : Model) (reports : Reports)
    → IsOn m
    → (n : Next) × (update matches msg m reports ≡ some n) × IsOn n.model × Removes m reports n
update-IsOn matches msg m reports on =
    Good-parts m reports (update matches msg m reports) (update-Good matches msg m reports on)
