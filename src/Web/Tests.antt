-- ===== src/Web/Tests.antt =====
-- Runs of the web interface's functions at concrete inputs (web/src).
use raceway.Prelude.{
  ℕ, ◌≡◌, ◌↔◌, refl, Bool, true, false, List, [], ◌∷◌, ◌++◌, map, none, some, All, inl, inr, length,
  any,
}
use raceway.Text.{Text, codes, ◌==◌}
use raceway.Json.{obj, end, field, str}
use raceway.Maps.{add, contains, set, Distinct}
use raceway.Sdk.Raceway.Tests.{platform, orders, ctx, deposit}
use raceway.Sdk.Types.{RacewayContext}
use raceway.Sdk.Raceway.Config.{new_raceway}
use raceway.Sdk.Raceway.Chain.{events_of}
use raceway.Sdk.Raceway.Track.{perform_all}
use raceway.Sdk.Raceway.Performed.{session}
use raceway.Web.Types.{Event}
use raceway.Web.Layout.Causality.{happens_before}
use raceway.Web.Layout.Changes.{get_state_changes_for_event}
use raceway.Web.Layout.Order.{IsBefore, happens_before-IsBefore}
use raceway.Web.Layout.Edges.{TimelineNode, compute_causal_edges}
use raceway.Web.Layout.Edges.Sound.{HasReason, compute_causal_edges-HasReason}
use raceway.Web.Layout.Edges.Complete.{Joined}
use raceway.Web.Layout.Timeline.{compute_timeline_layout}
use raceway.Web.Layout.Lanes.{layout-lanes, Shows, is_thread}
use raceway.Web.Layout.Nodes.{layout-Joined}
use raceway.Web.Tracing.{InOrder, recorded-InOrder}
use raceway.Web.Locks.{LockEvent, analyse, nothing_yet}
use raceway.Web.Locks.Metrics.{lock_events}
use raceway.Web.Locks.Times.{AddsUp, WaitAddsUp}
use raceway.Web.Locks.Durations.{lock_events-AddsUp}
use raceway.Web.Locks.Exclusion.{IsExclusive, analyse-IsExclusive}
use raceway.Web.Keyboard.Arrows.{GoesBack, arrows-inverse}

abbrev event : Text → Text → ℕ → List (Text × ℕ) → Event
event id thread time vector = record {
  id = id;
  trace_id = b't' ∷ [];
  parent_id = none;
  timestamp = time ∷ [];
  kind = field (b'k' ∷ []) (str []) end;
  metadata = record {
    thread_id = thread;
    process_id = 1;
    service_name = b's' ∷ [];
    environment = b'd' ∷ [];
    tags = [];
    duration_ns = none;
    location = none;
  };
  causality_vector = vector;
  lock_set = [];
}

abbrev pub get_time : Text → ℕ
get_time [] = 0
get_time (c ∷ s) = c

abbrev pub first : Event
first = event (b'1' ∷ []) (b'x' ∷ []) 5 ((b'a' ∷ [], 0) ∷ [])

abbrev pub second : Event
second = event (b'2' ∷ []) (b'y' ∷ []) 3 ((b'a' ∷ [], 1) ∷ [])

abbrev pub third : Event
third = event (b'3' ∷ []) (b'x' ∷ []) 4 ((b'a' ∷ [], 2) ∷ [])

abbrev pub trace : List Event
trace = first ∷ second ∷ third ∷ []

causal_pairs : length (compute_timeline_layout get_time trace 2000).edges ≡ 2
unfolding compute_timeline_layout ◌==◌ add
causal_pairs = refl

happens_before-IsBefore_example :
    (happens_before first second ≡ true) ↔ IsBefore first.causality_vector second.causality_vector
happens_before-IsBefore_example = happens_before-IsBefore first second

layout-Joined_example : Joined (compute_timeline_layout get_time trace 2000).edges first.id third.id
unfolding ◌==◌ happens_before set add
layout-Joined_example =
    layout-Joined get_time trace 2000 first third (refl, (refl, (refl, tt))) (inl refl)
      (inr (inr (inl refl))) refl refl

abbrev drawn : List TimelineNode
drawn = (compute_timeline_layout get_time trace 2000).nodes

compute_causal_edges-HasReason_example : All (HasReason trace) (compute_causal_edges drawn trace)
compute_causal_edges-HasReason_example = compute_causal_edges-HasReason drawn trace

layout-lanes_example :
    let lanes = (compute_timeline_layout get_time trace 2000).swimlanes in
    Distinct (map (λ l. l.id) lanes)
    × ((t : Text) → contains t (map (λ l. l.id) lanes) ≡ any (is_thread t) trace)
    × All (Shows get_time trace) lanes
layout-lanes_example = layout-lanes get_time trace 2000

abbrev rooted : RacewayContext
rooted = record ctx { root_id = some (b'r' ∷ []) }

recorded-InOrder_example :
    let es = events_of platform deposit orders rooted in
    ((perform_all platform deposit (session orders rooted)).raceway.captured
      ≡ orders.captured ++ es)
    × InOrder es
unfolding new_raceway
recorded-InOrder_example =
    recorded-InOrder platform deposit orders rooted (b'r' ∷ []) refl refl refl

abbrev lock_event : Text → Bool → ℕ → LockEvent
lock_event thread is_acquire time = record {
  lock_id = b'L' ∷ [];
  lock_type = b'M' ∷ [];
  thread_id = thread;
  service_name = b's' ∷ [];
  event_id = b'e' ∷ [];
  timestamp = time;
  location = [];
  is_acquire = is_acquire;
  event = first;
}

abbrev locked : Event
unfolding codes
locked = record first {
  kind = field (codes "LockAcquire") (obj (field (codes "lock_id") (str (b'L' ∷ [])) end)) end;
}

abbrev asks_x : LockEvent
asks_x = lock_event (b'x' ∷ []) true 1

abbrev asks_y : LockEvent
asks_y = lock_event (b'y' ∷ []) true 2

abbrev leaves_x : LockEvent
leaves_x = lock_event (b'x' ∷ []) false 6

abbrev leaves_y : LockEvent
leaves_y = lock_event (b'y' ∷ []) false 9

analyse-IsExclusive_example :
    IsExclusive (analyse (asks_x ∷ asks_y ∷ leaves_x ∷ []) nothing_yet) (b'L' ∷ [])
analyse-IsExclusive_example = analyse-IsExclusive (asks_x ∷ asks_y ∷ leaves_x ∷ []) (b'L' ∷ [])

lock_events-AddsUp_example :
    let after = analyse (lock_events get_time (locked ∷ [])) nothing_yet in
    (All AddsUp after.holds) × (All WaitAddsUp after.contentions)
lock_events-AddsUp_example = lock_events-AddsUp get_time (locked ∷ [])

abbrev shown : List Text
shown = (b'a' ∷ []) ∷ (b'b' ∷ []) ∷ (b'c' ∷ []) ∷ []

arrows-inverse_example :
    GoesBack (codes "ArrowDown") (codes "ArrowUp") (b'c' ∷ []) shown
    × GoesBack (codes "ArrowUp") (codes "ArrowDown") (b'c' ∷ []) shown
unfolding contains ◌==◌
arrows-inverse_example =
    arrows-inverse shown 2 (b'c' ∷ []) (refl, (refl, (refl, tt))) (refl, (refl, (refl, tt))) refl

-- A state change without a type of access makes the list fail.
without_type :
    get_state_changes_for_event (record first {
      kind = field (codes "StateChange") (obj (field (codes "variable") (str (codes "v")) end)) end;
    })
    ≡ none
unfolding get_state_changes_for_event codes ◌==◌
without_type = refl
