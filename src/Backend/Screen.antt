-- ===== src/Backend/Screen.antt =====
-- pkg/backend/tui.go: the model and its messages. The store is shared with the server, so it is part
-- of the state. A key message and the test whether it matches a binding belong to bubbletea: `Key` is
-- the type, and `matches` an argument. `none` is a panic by an index out of range.
use kausality.Base.{
  String, ℕ, ◌+◌, ◌-◌, leb, ltb, Bool, true, false, ◌&&◌, if◌then◌else◌, List, [], ◌∷◌, length,
  Option, none, some, get_elem?,
}
use kausality.Backend.{StoredReport, Reports, remove}

pub data ViewState : Type 0 where
  view_list view_detail : ViewState

-- The bindings of `KeyMap`.
pub data Binding : Type 0 where
  up down enter escape dismiss quit : Binding

-- `DefaultKeyMap`
unfoldable pub default_keys : Binding → List String
default_keys up = "up" ∷ "k" ∷ []
default_keys down = "down" ∷ "j" ∷ []
default_keys enter = "enter" ∷ []
default_keys escape = "esc" ∷ []
default_keys dismiss = "d" ∷ "backspace" ∷ []
default_keys quit = "q" ∷ "ctrl+c" ∷ []

-- The model without the store, the key map, the help and the address.
pub record Model : Type 0 where
  pub items : List StoredReport
  pub cursor : ℕ
  pub view : ViewState
  pub width : ℕ
  pub height : ℕ

pub data Command : Type 0 where
  refresh_items refresh_and_tick tea_quit : Command

pub data Msg (Key : Type 0) : Type 0 where
  window_size : ℕ → ℕ → Msg Key
  pressed : Key → Msg Key
  tick : Msg Key
  refreshed : List StoredReport → Msg Key
  report_arrived : Msg Key
  other_msg : Msg Key

-- The model, the store, and what bubbletea runs next.
pub record Next : Type 0 where
  pub model : Model
  pub reports : Reports
  pub command : Option Command

unfoldable pub new_model : Model
new_model = record { items = []; cursor = 0; view = view_list; width = 0; height = 0 }

-- The case of `refreshMsg`.
unfoldable pub take_items : List StoredReport → Model → Model
take_items items m =
    let shown = record m { items = items } in
    if leb (length items) m.cursor && ltb 0 (length items)
    then record shown { cursor = length items - 1 }
    else shown

-- The case of the binding `Delete`.
unfoldable pub dismiss_selected : Model → Reports → Option Next
unfolding remove
dismiss_selected m reports =
    if ltb 0 (length m.items) && ltb m.cursor (length m.items)
    then elim (get_elem? m.items m.cursor) [
      | none ↦ none
      | some item ↦ some (record {
        model = m;
        reports = remove item.report.id reports;
        command = some refresh_items;
      })
    ]
    else some (record { model = m; reports = reports; command = none })

module _ {Key : Type 0} (matches : Binding → Key → Bool) where
  unfoldable pub handle_key : Key → Model → Reports → Option Next
  unfolding dismiss_selected
  handle_key k m reports =
      let next : Model → Option Command → Option Next =
        λ m' c. some (record { model = m'; reports = reports; command = c }) in
      if (elim m.view [ view_list ↦ false | view_detail ↦ true ]) && matches escape k
      then next (record m { view = view_list }) none
      else if matches quit k
      then next m (some tea_quit)
      else if matches up k
      then next (if ltb 0 m.cursor then record m { cursor = m.cursor - 1 } else m) none
      else if matches down k
      then next
          (if ltb (m.cursor + 1) (length m.items) then record m { cursor = m.cursor + 1 } else m)
          none
      else if matches enter k
      then next (if ltb 0 (length m.items) then record m { view = view_detail } else m) none
      else if matches escape k
      then next (record m { view = view_list }) none
      else if matches dismiss k
      then dismiss_selected m reports
      else next m none

  unfoldable pub update : Msg Key → Model → Reports → Option Next
  unfolding handle_key take_items
  update (window_size w h) m reports =
      some
        (record { model = record m { width = w; height = h }; reports = reports; command = none })
  update (pressed k) m reports = handle_key k m reports
  update tick m reports =
      some (record { model = m; reports = reports; command = some refresh_and_tick })
  update (refreshed items) m reports =
      some (record { model = take_items items m; reports = reports; command = none })
  update report_arrived m reports =
      some (record { model = m; reports = reports; command = some refresh_items })
  update other_msg m reports = some (record { model = m; reports = reports; command = none })
