-- ===== src/Cli/Model.antt =====
-- cmd/kausality-cli/pkg/cli/model.go: the model and its messages. A key message and the test whether
-- it matches a binding belong to bubbletea: `Key` is the type, and `matches` an argument. `none` is a
-- panic by an index out of range.
use Prim.Native.String.{◌++◌}
use kausality.Base.{
  String, ℕ, ◌+◌, ◌-◌, pos, ltb, Bool, true, false, ◌&&◌, if◌then◌else◌, List, [], ◌∷◌, length,
  Option, none, some, get_elem?,
}
use kausality.Base.Digits.{format_int}
use kausality.Cli.Items.{DriftItem}

pub data ViewState : Type 0 where
  view_list view_detail : ViewState

-- The bindings of `KeyMap`.
pub data Binding : Type 0 where
  up down enter escape approve_once approve_gen ignore freeze snooze refresh quit : Binding

-- `DefaultKeyMap`
unfoldable pub default_keys : Binding → List String
default_keys up = "up" ∷ "k" ∷ []
default_keys down = "down" ∷ "j" ∷ []
default_keys enter = "enter" ∷ []
default_keys escape = "esc" ∷ []
default_keys approve_once = "a" ∷ []
default_keys approve_gen = "A" ∷ []
default_keys ignore = "i" ∷ []
default_keys freeze = "f" ∷ []
default_keys snooze = "s" ∷ []
default_keys refresh = "r" ∷ []
default_keys quit = "q" ∷ "ctrl+c" ∷ []

-- The model without the client, the key map and the help, which no message changes but for the width
-- of the help.
pub record Model : Type 0 where
  pub items : List DriftItem
  pub cursor : ℕ
  pub view : ViewState
  pub width : ℕ
  pub height : ℕ
  pub status : String
  pub error : Option String

pub data Action : Type 0 where
  do_approve_once do_approve_generation do_ignore do_freeze do_snooze : Action

-- What bubbletea runs next. `loadDrifts` is bound to the model of its time, and so to the items.
pub data Command : Type 0 where
  load_drifts : List DriftItem → Command
  act : Action → DriftItem → Command
  tea_quit : Command

pub data Msg (Key : Type 0) : Type 0 where
  window_size : ℕ → ℕ → Msg Key
  pressed : Key → Msg Key
  drifts_loaded : List DriftItem → Msg Key
  action_done : String → Option String → Msg Key
  failed : String → Msg Key
  other_msg : Msg Key

unfoldable pub new_model : Model
new_model = record {
  items = [];
  cursor = 0;
  view = view_list;
  width = 0;
  height = 0;
  status = "Loading...";
  error = none;
}

unfoldable pub found_status : List DriftItem → String
unfolding format_int
found_status items = format_int (pos (length items)) ++ " drift(s) found"

unfoldable pub set_items : List DriftItem → Model → Model
unfolding found_status
set_items items m = record m { items = items; status = found_status items }

-- `if len(m.items) > 0 { return m, m.act(m.items[m.cursor]) }`
unfoldable pub act_on_selected : Action → Model → Option (Model × Option Command)
act_on_selected action m =
    if ltb 0 (length m.items)
    then elim (get_elem? m.items m.cursor) [
      | none ↦ none
      | some item ↦ some (m, some (act action item))
    ]
    else some (m, none)

module _ {Key : Type 0} (matches : Binding → Key → Bool) where
  unfoldable pub handle_key : Key → Model → Option (Model × Option Command)
  unfolding act_on_selected
  handle_key k m =
      if (elim m.view [ view_list ↦ false | view_detail ↦ true ]) && matches escape k
      then some (record m { view = view_list }, none)
      else if matches quit k
      then some (m, some tea_quit)
      else if matches up k
      then some (if ltb 0 m.cursor then record m { cursor = m.cursor - 1 } else m, none)
      else if matches down k
      then some (
        if ltb (m.cursor + 1) (length m.items) then record m { cursor = m.cursor + 1 } else m,
        none,
      )
      else if matches enter k
      then some (if ltb 0 (length m.items) then record m { view = view_detail } else m, none)
      else if matches escape k
      then some (record m { view = view_list }, none)
      else if matches approve_once k
      then act_on_selected do_approve_once m
      else if matches approve_gen k
      then act_on_selected do_approve_generation m
      else if matches ignore k
      then act_on_selected do_ignore m
      else if matches freeze k
      then act_on_selected do_freeze m
      else if matches snooze k
      then act_on_selected do_snooze m
      else if matches refresh k
      then some (m, some (load_drifts m.items))
      else some (m, none)

  unfoldable pub update : Msg Key → Model → Option (Model × Option Command)
  unfolding handle_key set_items
  update (window_size w h) m = some (record m { width = w; height = h }, none)
  update (pressed k) m = handle_key k m
  update (drifts_loaded items) m = some (set_items items m, none)
  update (action_done action none) m =
      some
        (record m { status = "Action '" ++ (action ++ "' completed") }, some (load_drifts m.items))
  update (action_done action (some e)) m =
      some (record m { status = "Error: " ++ e }, some (load_drifts m.items))
  update (failed e) m = some (record m { error = some e; status = "Error: " ++ e }, none)
  update other_msg m = some (m, none)
