-- ===== src/Web/Playback.antt =====
-- web/src/components/views/debugger/CausalDebuggerView.tsx: the position of the causal debugger in
-- the events, and its playback, with the keys of DebuggerControls.tsx. The interval's length and
-- the place of the mouse on the scrubber, floating-point numbers, are left out: a scrub is the index
-- that it computes, and the speed is kept as the text of its choice.
pub mod Bounds
pub mod Ends
pub mod Tests
use raceway.Prelude.{
  ℕ, zero, suc, ℤ, pos, negsuc, pred_int, succ_int, leb_int, Bool, true, false, not, List, [], ◌∷◌,
  Option, none, some, length, get_elem?, if◌then◌else◌,
}
use raceway.Text.{Text, codes, ◌==◌}
use raceway.Web.Types.{Event}
use raceway.Web.Layout.Timeline.{sorted_events}

pub record Debugger : Type 0 where
  pub sorted_events_of : List Event
  pub current_index : ℤ
  pub is_playing : Bool
  pub playback_speed : Text

-- sortedEvents.length - 1
abbrev pub last_index : Debugger → ℤ
last_index d = pred_int (pos (length d.sorted_events_of))

-- the first render
abbrev pub opened : (Text → ℕ) → List Event → Debugger
opened get_time events = record {
  sorted_events_of = sorted_events get_time events;
  current_index = pos 0;
  is_playing = false;
  playback_speed = codes "1";
}

-- sortedEvents[currentIndex] || null
unfoldable pub current_event : Debugger → Option Event
current_event d = elim d.current_index [ pos i ↦ get_elem? d.sorted_events_of i | negsuc i ↦ none ]

-- the callback of the interval, which is set while `is_playing`
unfoldable pub tick : Debugger → Debugger
unfolding leb_int succ_int pred_int
tick d =
    if not d.is_playing
    then d
    else if leb_int (last_index d) d.current_index
    then record d { is_playing = false }
    else record d { current_index = succ_int d.current_index }

-- Math.max(0, prev - 1)
unfoldable pub step_back : Debugger → Debugger
unfolding leb_int pred_int
step_back d =
    let prev = pred_int d.current_index in
    record d { current_index = if leb_int prev (pos 0) then pos 0 else prev }

-- Math.min(sortedEvents.length - 1, prev + 1)
unfoldable pub step_forward : Debugger → Debugger
unfolding leb_int succ_int pred_int
step_forward d =
    let next = succ_int d.current_index in
    record d { current_index = if leb_int next (last_index d) then next else last_index d }

unfoldable pub jump_to_start : Debugger → Debugger
jump_to_start d = record d { current_index = pos 0; is_playing = false }

unfoldable pub jump_to_end : Debugger → Debugger
unfolding pred_int
jump_to_end d = record d { current_index = last_index d; is_playing = false }

unfoldable pub toggle_playback : Debugger → Debugger
toggle_playback d = record d { is_playing = not d.is_playing }

unfoldable pub speed_change : Text → Debugger → Debugger
speed_change speed d = record d { playback_speed = speed }

unfoldable pub scrub : ℕ → Debugger → Debugger
scrub index d = record d { current_index = pos index; is_playing = false }

-- sortedEvents.findIndex(e => e.id === eventId)
unfoldable pub find_event : Text → List Event → Option ℕ
find_event id [] = none
find_event id (e ∷ es) =
    if e.id == id then some 0 else elim (find_event id es) [ none ↦ none | some i ↦ some (suc i) ]

unfoldable pub event_click : Text → Debugger → Debugger
unfolding find_event
event_click id d = elim (find_event id d.sorted_events_of) [
  | none ↦ d
  | some index ↦ record d { current_index = pos index; is_playing = false }
]

-- handleKeyDown of DebuggerControls.tsx, outside input fields
unfoldable pub debugger_key : Text → Debugger → Debugger
unfolding codes step_back step_forward toggle_playback jump_to_start jump_to_end
debugger_key key d =
    if key == codes "ArrowLeft"
    then step_back d
    else if key == codes "ArrowRight"
    then step_forward d
    else if key == codes " "
    then toggle_playback d
    else if key == codes "Home"
    then jump_to_start d
    else if key == codes "End"
    then jump_to_end d
    else d
