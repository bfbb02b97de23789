-- ===== src/Cli/Runs.antt =====
-- cmd/kausality-cli: every run of the monitor, with the commands that bubbletea has not finished. The
-- items are those that main lists before it starts the program.
use kausality.Base.{
  String, ℕ, ◌+◌, ◌-◌, ◌≤◌, ltb, ltb→lt, Bool, true, false, ◌&&◌, if◌then◌else◌, List, [], ◌∷◌,
  ◌++◌, length, Option, none, some, is_some, get_elem?, get_elem-in_range, All, All-append,
  All-without, ◌≡◌, refl, ap, arith, inl, inr, Bool-cases, Option-cases, subst,
}
use mathlib.Core.Bool.{false≢true}
use kausality.Cli.Items.{DriftItem}
use kausality.Cli.Model.{
  ViewState, view_list, view_detail, Binding, quit, up, down, enter, escape, approve_once,
  approve_gen, ignore, freeze, snooze, refresh, Model, Action, do_approve_once,
  do_approve_generation, do_ignore, do_freeze, do_snooze, Command, load_drifts, act, tea_quit, Msg,
  window_size, pressed, drifts_loaded, action_done, failed, other_msg, new_model, set_items,
  act_on_selected, handle_key, update,
}

-- A run: the model, and the commands whose messages have not arrived.
pub record Driver : Type 0 where
  pub model : Model
  pub waiting : List Command

abbrev pub command_list : Option Command → List Command
command_list none = []
command_list (some c) = c ∷ []

-- The messages that can arrive, and the commands that wait afterwards. A command can end at any time,
-- and an action with any error.
pub data Arrives {Key : Type 0} (s : Driver) : Msg Key → List Command → Type 0 where
  key : (k : Key) → Arrives s (pressed k) s.waiting
  window : (w h : ℕ) → Arrives s (window_size w h) s.waiting
  other : Arrives s other_msg s.waiting
  loaded :
      (before after : List Command) (items : List DriftItem)
      → s.waiting ≡ before ++ load_drifts items ∷ after
      → Arrives s (drifts_loaded items) (before ++ after)
  acted :
      (before after : List Command) (action : Action) (item : DriftItem) (name : String)
      (error : Option String)
      → s.waiting ≡ before ++ act action item ∷ after
      → Arrives s (action_done name error) (before ++ after)

-- `SetItems` on a new model, and `Init`.
abbrev pub started : List DriftItem → Driver
started items = record { model = set_items items new_model; waiting = load_drifts items ∷ [] }

pub data Reach {Key : Type 0} (matches : Binding → Key → Bool) (items : List DriftItem)
    : Driver → Type 0 where
  start : Reach matches items (started items)
  later :
      {s : Driver} {msg : Msg Key} {left : List Command} {m : Model} {c : Option Command}
      → Reach matches items s
      → Arrives s msg left
      → update matches msg s.model ≡ some (m, c)
      → Reach matches items (record { model = m; waiting = left ++ command_list c })

abbrev Loads : List DriftItem → Command → Type 0
Loads items (load_drifts xs) = xs ≡ items
Loads items (act a item) = Unit
Loads items tea_quit = Unit

-- The model shows the items, and the cursor is on one of them if there are any.
record IsOn (items : List DriftItem) (m : Model) : Type 0 where
  same_items : m.items ≡ items
  in_range : m.cursor ≤ length items - 1

-- A step that does not panic and keeps this.
Good : List DriftItem → Option (Model × Option Command) → Type 0
Good items none = ⊥
Good items (some (m, c)) = IsOn items m × All (Loads items) (command_list c)

good :
    (items : List DriftItem) (m : Model) (c : Option Command)
    → IsOn items m
    → All (Loads items) (command_list c)
    → Good items (some (m, c))
unfolding Good
good items m c on loads = (on, loads)

Good-if :
    (items : List DriftItem) (b : Bool) (x y : Option (Model × Option Command))
    → (b ≡ true → Good items x)
    → Good items y
    → Good items (if b then x else y)
Good-if items true x y hx hy = hx refl
Good-if items false x y hx hy = hy

act-Good :
    (items : List DriftItem) (action : Action) (m : Model)
    → IsOn items m
    → Good items (act_on_selected action m)
unfolding act_on_selected
act-Good items action m on = elim (Bool-cases (ltb 0 (length m.items))) [
  | inr e ↦ rw e (good items m none on tt)
  | inl e ↦
      let some_there = ltb→lt 0 (length m.items) e in
      let same = ap length on.same_items in
      let found =
        get_elem-in_range m.items m.cursor (omega (arith, some_there, same, on.in_range)) in
      elim (Option-cases (get_elem? m.items m.cursor)) [
        | inl missing ↦ absurd (false≢true (rw missing at found))
        | inr (item, there) ↦ rw (e, there) (good items m (some (act action item)) on (tt, tt))
      ]
]

handle_key-Good :
    {Key : Type 0} (matches : Binding → Key → Bool) (items : List DriftItem) (k : Key) (m : Model)
    → IsOn items m
    → Good items (handle_key matches k m)
unfolding handle_key
handle_key-Good matches items k m on =
    Good-if items ((elim m.view [ view_list ↦ false | view_detail ↦ true ]) && matches escape k) _ _
      (λ e. good items _ none (kept view_list) tt)
      (Good-if items (matches quit k) _ _ (λ e. good items _ (some tea_quit) on (tt, tt))
        (Good-if items (matches up k) _ _ (λ e. good items _ none moved_up tt)
          (Good-if items (matches down k) _ _ (λ e. good items _ none moved_down tt)
            (Good-if items (matches enter k) _ _ (λ e. good items _ none opened tt)
              (Good-if items (matches escape k) _ _ (λ e. good items _ none (kept view_list) tt)
                (Good-if items (matches approve_once k) _ _
                  (λ e. act-Good items do_approve_once m on)
                  (Good-if items (matches approve_gen k) _ _
                    (λ e. act-Good items do_approve_generation m on)
                    (Good-if items (matches ignore k) _ _ (λ e. act-Good items do_ignore m on)
                      (Good-if items (matches freeze k) _ _ (λ e. act-Good items do_freeze m on)
                        (Good-if items (matches snooze k) _ _ (λ e. act-Good items do_snooze m on)
                          (Good-if items (matches refresh k) _ _
                            (λ e. good items _ (some (load_drifts m.items)) on (on.same_items, tt))
                            (good items _ none on tt))))))))))))
  where
    kept : (v : ViewState) → IsOn items (record m { view = v })
    kept v = record { same_items = on.same_items; in_range = on.in_range }

    moved_up : IsOn items (if ltb 0 m.cursor then record m { cursor = m.cursor - 1 } else m)
    moved_up = elim (Bool-cases (ltb 0 m.cursor)) [
      | inl e ↦ rw e (record { same_items = on.same_items; in_range = omega (arith, on.in_range) })
      | inr e ↦ rw e on
    ]

    moved_down :
        IsOn items
          (if ltb (m.cursor + 1) (length m.items) then record m { cursor = m.cursor + 1 } else m)
    moved_down = elim (Bool-cases (ltb (m.cursor + 1) (length m.items))) [
      | inl e ↦
          let before = ltb→lt (m.cursor + 1) (length m.items) e in
          let same = ap length on.same_items in
          rw e (record { same_items = on.same_items; in_range = omega (arith, before, same) })
      | inr e ↦ rw e on
    ]

    opened : IsOn items (if ltb 0 (length m.items) then record m { view = view_detail } else m)
    opened = elim (Bool-cases (ltb 0 (length m.items))) [
      | inl e ↦ rw e (kept view_detail)
      | inr e ↦ rw e on
    ]

-- What a command brings: `loadDrifts` the items.
abbrev Brings : List DriftItem → {Key : Type 0} → Msg Key → Type 0
Brings items (drifts_loaded xs) = xs ≡ items
Brings items msg = Unit

update-Good :
    {Key : Type 0} (matches : Binding → Key → Bool) (items : List DriftItem) (msg : Msg Key)
    (m : Model)
    → IsOn items m
    → Brings items msg
    → Good items (update matches msg m)
unfolding update set_items
update-Good matches items (pressed k) m on b = handle_key-Good matches items k m on
update-Good matches items (window_size w h) m on b =
    good items _ none (record { same_items = on.same_items; in_range = on.in_range }) tt
update-Good matches items (drifts_loaded xs) m on b =
    good items _ none (record { same_items = b; in_range = on.in_range }) tt
update-Good matches items (action_done name none) m on b =
    good items _ (some (load_drifts m.items))
      (record { same_items = on.same_items; in_range = on.in_range }) (on.same_items, tt)
update-Good matches items (action_done name (some e)) m on b =
    good items _ (some (load_drifts m.items))
      (record { same_items = on.same_items; in_range = on.in_range }) (on.same_items, tt)
update-Good matches items (failed e) m on b =
    good items _ none (record { same_items = on.same_items; in_range = on.in_range }) tt
update-Good matches items other_msg m on b = good items m none on tt

record Inv (items : List DriftItem) (s : Driver) : Type 0 where
  on : IsOn items s.model
  loads : All (Loads items) s.waiting

arrives_lem :
    {Key : Type 0} {msg : Msg Key} {left : List Command} (items : List DriftItem) (s : Driver)
    → Arrives s msg left
    → All (Loads items) s.waiting
    → Brings items msg × All (Loads items) left
arrives_lem items s (key k) h = (tt, h)
arrives_lem items s (window w h') h = (tt, h)
arrives_lem items s other h = (tt, h)
arrives_lem items s (loaded before after xs e) h =
    All-without (Loads items) before (load_drifts xs) after (subst (All (Loads items)) e h)
arrives_lem items s (acted before after action item name error e) h =
    All-without (Loads items) before (act action item) after (subst (All (Loads items)) e h)

Good-parts :
    (items : List DriftItem) (m : Model) (c : Option Command)
    → Good items (some (m, c))
    → IsOn items m × All (Loads items) (command_list c)
unfolding Good
Good-parts items m c g = g

Good-is_some :
    (items : List DriftItem) (o : Option (Model × Option Command)) → Good items o → is_some o ≡ true
unfolding Good
Good-is_some items none g = absurd g
Good-is_some items (some x) g = refl

Reach-Inv :
    {Key : Type 0} {matches : Binding → Key → Bool} {items : List DriftItem} {s : Driver}
    → Reach matches items s
    → Inv items s
unfolding set_items new_model
Reach-Inv {items} start = record {
  on = record { same_items = refl; in_range = omega arith };
  loads = (refl, tt);
}
Reach-Inv {matches} {items} (later {s} {msg} {left} {m} {c} r arrives done) =
    let inv = Reach-Inv r in
    let (brings, rest) = arrives_lem items s arrives inv.loads in
    let (on, loads) =
      Good-parts items m c
        (subst (Good items) done (update-Good matches items msg s.model inv.on brings)) in
    record { on = on; loads = All-append (Loads items) left (command_list c) rest loads }

-- In every run of the monitor, with keys pressed in any order and commands that end at any time and
-- with any error, the items are those listed at the start, the cursor stands on one of them if there
-- are any, and no message that arrives makes `Update` index out of range.
pub update-is_some :
    {Key : Type 0} (matches : Binding → Key → Bool) (items : List DriftItem) (s : Driver)
    (msg : Msg Key) (left : List Command)
    → Reach matches items s
    → Arrives s msg left
    → (s.model.items ≡ items)
      × (s.model.cursor ≤ length items - 1)
      × (is_some (update matches msg s.model) ≡ true)
update-is_some matches items s msg left r arrives =
    let inv = Reach-Inv r in
    let (brings, rest) = arrives_lem items s arrives inv.loads in
    (
      inv.on.same_items,
      inv.on.in_range,
      Good-is_some items _ (update-Good matches items msg s.model inv.on brings),
    )
