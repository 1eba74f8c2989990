-- ===== src/Web/Keyboard.antt =====
-- web/src/hooks/useKeyboardShortcuts.ts: what a key does. A handler's calls of the callbacks are the
-- list of actions it returns; `preventDefault` and the help message are left out of it.
pub mod Arrows
use raceway.Prelude.{
  ℕ, suc, zero, ◌+◌, ◌-◌, Bool, true, false, not, ◌&&◌, ◌||◌, List, [], ◌∷◌, ◌++◌, Option, none,
  some, length, get_elem?, ltb, if◌then◌else◌,
}
use raceway.Text.{Text, codes, ◌==◌, is_truthy}

pub record KeyboardEvent : Type 0 where
  pub key : Text
  pub meta_key : Bool
  pub ctrl_key : Bool
  pub shift_key : Bool
  pub alt_key : Bool
  pub in_field : Bool  -- the target is an input, a text area or a select

pub data Action : Type 0 where
  navigate : Text → Action
  refresh : Action
  show_help : Action
  select : Text → Action

-- traces.findIndex(t => t.trace_id === id); `none` for -1. A trace is its `trace_id`.
unfoldable pub find_index : Text → List Text → Option ℕ
find_index id [] = none
find_index id (t ∷ ts) =
    if t == id then some 0 else elim (find_index id ts) [ none ↦ none | some i ↦ some (suc i) ]

-- currentIndex > 0 ? currentIndex - 1 : traces.length - 1
unfoldable pub prev_index : Option ℕ → ℕ → ℕ
prev_index none n = n - 1
prev_index (some i) n = if ltb 0 i then i - 1 else n - 1

-- currentIndex < traces.length - 1 ? currentIndex + 1 : 0, where -1 + 1 is 0 as well
unfoldable pub next_index : Option ℕ → ℕ → ℕ
next_index none n = 0
next_index (some i) n = if ltb i (n - 1) then i + 1 else 0

select_at : ℕ → List Text → List Action
select_at i traces = elim (get_elem? traces i) [ none ↦ [] | some id ↦ select id ∷ [] ]

unfoldable pub shortcut : Text → List Action
unfolding codes
shortcut key =
    if key == codes "1"
    then navigate (codes "overview") ∷ []
    else if key == codes "2"
    then navigate (codes "events") ∷ []
    else if key == codes "3"
    then navigate (codes "performance") ∷ []
    else if key == codes "4"
    then navigate (codes "variables") ∷ []
    else if key == codes "5"
    then navigate (codes "anomalies") ∷ []
    else if key == codes "r"
    then refresh ∷ []
    else if key == codes "?"
    then show_help ∷ []
    else []

unfoldable pub arrow : KeyboardEvent → Text → List Text → List Action
unfolding codes find_index prev_index next_index select_at
arrow event selected traces =
    let current_index = find_index selected traces in
    let plain = not event.meta_key && not event.ctrl_key in
    if event.key == codes "ArrowUp" && plain
    then select_at (prev_index current_index (length traces)) traces
    else if event.key == codes "ArrowDown" && plain
    then select_at (next_index current_index (length traces)) traces
    else []

unfoldable pub handle_key_down : KeyboardEvent → Option Text → List Text → List Action
unfolding shortcut arrow codes
handle_key_down event selected_trace_id traces =
    if event.in_field
    then []
    else if (event.meta_key || event.ctrl_key) && event.key == codes "k"
    then []
    else (if not event.meta_key && not event.ctrl_key && not event.shift_key && not event.alt_key
        then shortcut event.key
        else [])
      ++ elim selected_trace_id [
        | none ↦ []
        | some id ↦ if is_truthy id && ltb 0 (length traces) then arrow event id traces else []
      ]
