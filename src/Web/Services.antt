-- ===== src/Web/Services.antt =====
-- web/src/components/features/services/ServiceTimelineView.tsx: the lanes of the services and the
-- connections between them. Its assignRowsToEvents is that of TimelineView.tsx, word for word, and a
-- timeline event is one of Web/Rows whose `thread` is its service. Times are in nanoseconds, so that
-- durations are whole. Where an event is drawn in its lane is left out.
pub mod Connections
pub mod Tests
use raceway.Prelude.{
  ℕ, suc, ◌+◌, ◌-◌, ◌*◌, ◌^◌, nat_eq, not, List, [], ◌∷◌, ◌++◌, Option, none, some, map, sort_by,
  if◌then◌else◌,
}
use raceway.Text.{Text, codes, ◌==◌, is_truthy}
use raceway.Maps.{get, new_map, push}
use raceway.Web.Types.{Event}
use raceway.Web.Graph.{parent_of}
use raceway.Web.Rows.{TimelineEvent, end_of, on_thread, assign_rows_to_events, row_count}
use raceway.Web.Tree.{least}

pub record CrossServiceConnection : Type 0 where
  pub from : TimelineEvent
  pub to : TimelineEvent
  pub latency : ℕ

-- event.metadata.service_name || '<unnamed>'
abbrev pub service_of : Event → Text
unfolding codes
service_of event =
    if is_truthy event.metadata.service_name then event.metadata.service_name else codes "<unnamed>"

-- duration_ns, or two milliseconds where it is missing or zero
unfoldable pub duration_of : Event → ℕ
duration_of event = elim event.metadata.duration_ns [
  | none ↦ 2 * 10 ^ 6
  | some t ↦ if nat_eq t 0 then 2 * 10 ^ 6 else t
]

-- eventMap
unfoldable pub event_map : List TimelineEvent → List (Text × TimelineEvent)
unfolding new_map
event_map timeline_data = new_map (map (λ te. ((te.event).id, te)) timeline_data)

abbrev pub connection : TimelineEvent → TimelineEvent → CrossServiceConnection
connection parent te = record { from = parent; to = te; latency = te.start_time - end_of parent }

-- the body of the loop over the timeline events
unfoldable pub connections_to :
    List (Text × TimelineEvent) → TimelineEvent → List CrossServiceConnection
unfolding parent_of get
connections_to m te = elim (parent_of te.event) [
  | none ↦ []
  | some id ↦ elim (get id m) [
    | none ↦ []
    | some parent ↦ if not (parent.thread == te.thread) then connection parent te ∷ [] else []
  ]
]

unfoldable pub connections_from :
    List (Text × TimelineEvent) → List TimelineEvent → List CrossServiceConnection
unfolding connections_to
connections_from m [] = []
connections_from m (te ∷ rest) = connections_to m te ++ connections_from m rest

unfoldable pub connections : List TimelineEvent → List CrossServiceConnection
unfolding connections_from event_map
connections timeline_data = connections_from (event_map timeline_data) timeline_data

module _ (get_time : Text → ℕ) where
  unfoldable pub parse_event : Event → TimelineEvent
  unfolding service_of duration_of
  parse_event event = record {
    event = event;
    thread = service_of event;
    start_time = get_time event.timestamp * 10 ^ 6;
    duration = duration_of event;
    row = none;
  }

  unfoldable pub timeline_data : List Event → List TimelineEvent
  unfolding parse_event
  timeline_data events = map parse_event events

  -- serviceMap
  unfoldable pub group_by_service : List Event → List (Text × List Event) → List (Text × List Event)
  unfolding service_of push
  group_by_service [] m = m
  group_by_service (event ∷ rest) m = group_by_service rest (push (service_of event) event m)

  -- The least time of the events of a service; a service of the map has some.
  abbrev pub first_time : List Event → ℕ
  unfolding least
  first_time [] = 0
  first_time (e ∷ es) = least (get_time e.timestamp) (map (λ f. get_time f.timestamp) es)

  unfoldable pub services : List Event → List Text
  unfolding group_by_service sort_by first_time
  services events = map (λ s. s.0) (sort_by (λ s. first_time s.1) (group_by_service events []))

  -- The events of a service as they are drawn.
  unfoldable pub service_events : List Event → Text → List TimelineEvent
  unfolding timeline_data assign_rows_to_events
  service_events events service = assign_rows_to_events (on_thread service (timeline_data events))

  -- serviceRowCounts
  unfoldable pub service_row_counts : List Event → List (Text × ℕ)
  unfolding services service_events row_count
  service_row_counts events =
      map (λ service. (service, row_count (service_events events service))) (services events)
