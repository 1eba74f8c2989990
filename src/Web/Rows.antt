-- ===== src/Web/Rows.antt =====
-- web/src/components/features/events/TimelineView.tsx: the events of each thread and the rows that
-- they are drawn on. Where an event is drawn along its row is left out: that is a fraction.
pub mod Fit
pub mod Apart
pub mod Few
pub mod Marked
pub mod Tests
use raceway.Prelude.{
  ℕ, zero, suc, ◌+◌, max, Bool, false, ◌&&◌, List, [], ◌∷◌, ◌++◌, Option, none, some, map, filter,
  sort_by, length, leb, ltb, nat_eq, if◌then◌else◌,
}
use raceway.Text.{Text, codes, ◌==◌, is_truthy}
use raceway.Web.Types.{Event}

pub record TimelineEvent : Type 0 where
  pub event : Event
  pub thread : Text
  pub start_time : ℕ
  pub duration : ℕ
  pub row : Option ℕ

-- the loop over rowEndTimes, from the index on
unfoldable pub free_row : ℕ → ℕ → List ℕ → ℕ
free_row start i [] = 0
free_row start i (end_time ∷ rest) =
    let later = free_row start (suc i) rest in if leb end_time start then i else later

-- event.startTime < rowEndTimes[0], where there is a row
abbrev pub is_before_first : ℕ → List ℕ → Bool
is_before_first start [] = false
is_before_first start (end_time ∷ rest) = ltb start end_time

unfoldable pub assigned_row : ℕ → List ℕ → ℕ
unfolding free_row
assigned_row start rows =
    let row = free_row start 0 rows in
    if nat_eq row 0 && is_before_first start rows then length rows else row

-- rowEndTimes[row] = time, or rowEndTimes.push(time) if there are no more rows
unfoldable pub set_row_end : ℕ → ℕ → List ℕ → List ℕ
set_row_end row time [] = time ∷ []
set_row_end zero time (end_time ∷ rest) = time ∷ rest
set_row_end (suc row) time (end_time ∷ rest) = end_time ∷ set_row_end row time rest

abbrev pub end_of : TimelineEvent → ℕ
end_of e = e.start_time + e.duration

-- the loop over the sorted events; rows are the end times
unfoldable pub assign_sorted : List ℕ → List TimelineEvent → List TimelineEvent
unfolding assigned_row set_row_end
assign_sorted rows [] = []
assign_sorted rows (e ∷ es) =
    let row = assigned_row e.start_time rows in
    record e { row = some row } ∷ assign_sorted (set_row_end row (end_of e) rows) es

-- The events with their rows, in the order in which they get them. In the source, the row is written
-- into the event.
unfoldable pub assign_rows_to_events : List TimelineEvent → List TimelineEvent
unfolding assign_sorted sort_by
assign_rows_to_events thread_events = assign_sorted [] (sort_by (λ e. e.start_time) thread_events)

-- te.row || 0
abbrev pub row_or_zero : TimelineEvent → ℕ
row_or_zero e = elim e.row [ none ↦ 0 | some row ↦ row ]

-- threadEvents.reduce((max, te) => Math.max(max, te.row || 0), max)
unfoldable pub max_row : ℕ → List TimelineEvent → ℕ
max_row most [] = most
max_row most (e ∷ es) = max_row (max most (row_or_zero e)) es

-- the entry of threadRowCounts
unfoldable pub row_count : List TimelineEvent → ℕ
unfolding max_row
row_count thread_events = suc (max_row 0 thread_events)

-- the pairs of an event with later ones that start before it ends
unfoldable pub overlaps_with :
    TimelineEvent → List TimelineEvent → List (TimelineEvent × TimelineEvent)
overlaps_with a [] = []
overlaps_with a (b ∷ rest) =
    let pairs = overlaps_with a rest in
    if ltb b.start_time (end_of a) then (a, b) ∷ pairs else pairs

unfoldable pub overlaps : List TimelineEvent → List (TimelineEvent × TimelineEvent)
unfolding overlaps_with
overlaps [] = []
overlaps (a ∷ rest) = overlaps_with a rest ++ overlaps rest

-- te.thread === thread
abbrev pub on_thread : Text → List TimelineEvent → List TimelineEvent
on_thread thread events = filter (λ e. e.thread == thread) events

unfoldable pub get_overlapping_events :
    List TimelineEvent → Text → List (TimelineEvent × TimelineEvent)
unfolding overlaps sort_by
get_overlapping_events timeline_data thread =
    overlaps (sort_by (λ e. e.start_time) (on_thread thread timeline_data))

module _ (get_time : Text → ℕ) where
  abbrev pub parse_event : Event → TimelineEvent
  unfolding codes
  parse_event event = record {
    event = event;
    thread =
        if is_truthy event.metadata.thread_id then event.metadata.thread_id else codes "unknown";
    start_time = get_time event.timestamp;
    duration = 2;
    row = none;
  }

  -- timelineData, before the rows are assigned
  unfoldable pub timeline_data : List Event → List TimelineEvent
  unfolding parse_event
  timeline_data events = map parse_event events

  -- The events of a thread as they are drawn.
  unfoldable pub thread_events : List Event → Text → List TimelineEvent
  unfolding timeline_data assign_rows_to_events
  thread_events events thread = assign_rows_to_events (on_thread thread (timeline_data events))
