-- ===== src/Samples/Screens.antt =====
-- The theorems on the terminal interfaces and on the server, keys being texts.
use kausality.Base.{
  any, String, ◌≤◌, Bool, true, ◌==◌, if◌then◌else◌, [], ◌∷◌, List, none, some, is_some, Result, ok,
  err, ◌≡◌, refl, arith, inr, pos,
}
use kausality.Callback.Reports.{DriftReport, detected, resolved, ObjectReference}
use kausality.Cli.Items.{DriftItem}
use kausality.Cli.Model as Cli
use kausality.Cli.Runs as CliRuns
use kausality.Cli.Runs.{update-is_some}
use kausality.Backend.{StoredReport, Reports}
use kausality.Backend.Screen.{
  default_keys, refresh_items, Binding, Model, view_list, pressed, refreshed, Next, update,
}
use kausality.Backend.Cursor.{IsOn, Removes, update-IsOn}
use kausality.Backend.Server.{
  acknowledged, text, empty_body, handle_webhook, handle_get, handle_delete, handle_webhook-get,
}

abbrev ref : ObjectReference
ref = record {
  api_version = "v1";
  kind = "Pod";
  namespace = "n";
  name = "web";
  uid = "";
  generation = pos 1;
  observed_generation = pos 1;
  lifecycle_phase = "";
}

abbrev drift : String → DriftReport
drift id = record {
  id = id;
  phase = detected;
  parent = ref;
  child = ref;
  old_object = none;
  new_object = "{}";
  request = record { user = "alice"; uid = "1"; operation = "CREATE" };
}

abbrev stored : String → StoredReport
stored id = record { report = drift id; received_at = 5 }

abbrev keys : Binding → String → Bool
unfolding default_keys
keys b k = any (λ x. x == k) (default_keys b)

abbrev two : Reports
two = ("a", stored "a") ∷ ("b", stored "b") ∷ []

abbrev screen : Model
screen = record {
  items = stored "a" ∷ stored "b" ∷ [];
  cursor = 1;
  view = view_list;
  width = 80;
  height = 25;
}

test-dismiss :
    update keys (pressed "d") screen two
    ≡ some
        (record { model = screen; reports = ("a", stored "a") ∷ []; command = some refresh_items })
unfolding update keys
test-dismiss = refl

update-IsOn_example :
    (n : Next) × (update keys (refreshed (stored "a" ∷ [])) screen two ≡ some n)
    × IsOn n.model
    × Removes screen two n
update-IsOn_example = update-IsOn keys (refreshed (stored "a" ∷ [])) screen two (inr (omega arith))

abbrev decode : String → Result DriftReport
decode s =
    if s == "open"
    then ok (drift "a")
    else (if s == "close" then ok (record (drift "a") { phase = resolved }) else err "syntax error")

abbrev kept : Reports
kept = ("a", stored "a") ∷ ("b", stored "b") ∷ []

handle_webhook-get_example :
    let posted = handle_webhook decode 9 (ok "close") kept in
    let deletion = handle_delete "b" kept in
    (posted.0 ≡ record { status = 200; body = acknowledged })
    × (handle_get "a" posted.1 ≡ record { status = 404; body = text "not found" })
    × (deletion.0 ≡ record { status = 204; body = empty_body })
    × (handle_get "a" deletion.1 ≡ handle_get "a" kept)
handle_webhook-get_example =
    handle_webhook-get decode 9 "close" (record (drift "a") { phase = resolved }) "a" "b" kept refl
      refl refl

abbrev item : String → DriftItem
item name = record {
  id = name;
  phase = "Detected";
  parent_api_version = "apps/v1";
  parent_kind = "Deployment";
  parent_namespace = "shop";
  parent_name = "web";
  child_api_version = "v1";
  child_kind = "ConfigMap";
  child_namespace = "shop";
  child_name = name;
  user = "unknown";
  operation = "UPDATE";
  detected_at = 5;
}

abbrev cli_keys : Cli.Binding → String → Bool
unfolding Cli.default_keys
cli_keys b k = any (λ x. x == k) (Cli.default_keys b)

abbrev items : List DriftItem
items = item "x" ∷ item "y" ∷ []

abbrev moved : CliRuns.Driver
moved = record {
  model = record {
    items = items;
    cursor = 1;
    view = Cli.view_list;
    width = 0;
    height = 0;
    status = "2 drift(s) found";
    error = none;
  };
  waiting = Cli.load_drifts items ∷ [];
}

moved-Reach : CliRuns.Reach cli_keys items moved
unfolding Cli.set_items Cli.new_model Cli.update cli_keys
moved-Reach = CliRuns.later CliRuns.start (CliRuns.key "j") refl

update-is_some_example :
    (moved.model.items ≡ items)
    × (moved.model.cursor ≤ 1)
    × (is_some (Cli.update cli_keys (Cli.pressed "a") moved.model) ≡ true)
update-is_some_example =
    update-is_some cli_keys items moved (Cli.pressed "a") moved.waiting moved-Reach
      (CliRuns.key "a")
