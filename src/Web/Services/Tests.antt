-- ===== src/Web/Services/Tests.antt =====
-- Two services, one of which calls the other
-- (web/src/components/features/services/ServiceTimelineView.tsx).
use raceway.Prelude.{◌≡◌, ◌↔◌, refl, List, [], ◌∷◌, some, map, In}
use raceway.Text.{◌==◌}
use raceway.Maps.{Distinct, contains, set}
use raceway.Web.Types.{Event}
use raceway.Web.Tests.{first, second, get_time}
use raceway.Web.Rows.{TimelineEvent}
use raceway.Web.Services.{
  CrossServiceConnection, connection, connections, parse_event, timeline_data, service_row_counts,
}
use raceway.Web.Services.Connections.{IsConnection, connections-IsConnection}

abbrev callee : Event
callee = record second {
  parent_id = some first.id;
  metadata = record second.metadata { service_name = b'q' ∷ [] };
}

abbrev drawn : List TimelineEvent
unfolding timeline_data
drawn = timeline_data get_time (first ∷ callee ∷ [])

abbrev call : CrossServiceConnection
unfolding parse_event
call = connection (parse_event get_time first) (parse_event get_time callee)

one_call : connections drawn ≡ call ∷ []
unfolding connections set ◌==◌ drawn call
one_call = refl

row_counts :
    service_row_counts get_time (first ∷ callee ∷ []) ≡ (b'q' ∷ [], 1) ∷ (b's' ∷ [], 1) ∷ []
unfolding service_row_counts ◌==◌
row_counts = refl

drawn-Distinct : Distinct (map (λ (te : TimelineEvent). (te.event).id) drawn)
unfolding drawn contains ◌==◌
drawn-Distinct = (refl, (refl, tt))

connections-IsConnection_example : In call (connections drawn) ↔ IsConnection drawn call
connections-IsConnection_example = connections-IsConnection drawn call drawn-Distinct
