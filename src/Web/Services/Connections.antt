-- ===== src/Web/Services/Connections.antt =====
-- The connections are the parents in other services
-- (web/src/components/features/services/ServiceTimelineView.tsx).
use raceway.Prelude.{
  ◌-◌, ◌≡◌, ◌↔◌, refl, sym, ap, subst, ◌∙◌, inl, inr, false, List, [], ◌∷◌, some, map, In,
  In-append_left, In-append_right, In-append_cases, Option-cases, Bool-cases,
}
use raceway.Text.{Text, ◌==◌}
use raceway.Maps.{get, Distinct}
use raceway.Maps.Named.{new_map-source, new_map-named}
use raceway.Web.Graph.{parent_of}
use raceway.Web.Rows.{TimelineEvent, end_of}
use raceway.Web.Services.{
  CrossServiceConnection, event_map, connection, connections_to, connections_from, connections,
}

abbrev id_of : TimelineEvent → Text
id_of te = (te.event).id

-- It goes from an event to a child of the event in another service, and its latency is the time from
-- the end of the first to the start of the second, or none if that is earlier.
abbrev pub IsConnection : List TimelineEvent → CrossServiceConnection → Type 0
IsConnection events c =
    In c.from events
    × In c.to events
    × (parent_of (c.to).event ≡ some ((c.from).event).id)
    × ((c.from).thread == (c.to).thread ≡ false)
    × (c.latency ≡ (c.to).start_time - end_of c.from)

module _ (m : List (Text × TimelineEvent)) where
  -- A connection to an event, by what the map has.
  abbrev IsFound : TimelineEvent → CrossServiceConnection → Type 0
  IsFound te c =
      (id : Text) × (parent : TimelineEvent) × (parent_of te.event ≡ some id)
      × (get id m ≡ some parent)
      × (parent.thread == te.thread ≡ false)
      × (connection parent te ≡ c)

  connections_to-IsFound :
      (te : TimelineEvent) (c : CrossServiceConnection) → In c (connections_to m te) → IsFound te c
  unfolding connections_to
  connections_to-IsFound te c i = elim (Option-cases (parent_of te.event)) [
    | inl top ↦ absurd (nothing (rw (connections_to, top) refl))
    | inr (id, up) ↦ elim (Option-cases (get id m)) [
      | inl gone ↦ absurd (nothing (rw (connections_to, up, gone) refl))
      | inr (parent, found) ↦ elim (Bool-cases (parent.thread == te.thread)) [
        | inl own ↦ absurd (nothing (rw (connections_to, up, found, own) refl))
        | inr other ↦
            let single : connections_to m te ≡ connection parent te ∷ [] =
              rw (connections_to, up, found, other) refl in
            elim (subst (In c) single i) [
              | inl same ↦ (id, parent, up, found, other, same)
              | inr bad ↦ absurd bad
            ]
      ]
    ]
  ]
    where
      nothing : connections_to m te ≡ [] → ⊥
      nothing none_here = subst (In c) none_here i

  found_to :
      (te : TimelineEvent) (c : CrossServiceConnection) → IsFound te c → In c (connections_to m te)
  unfolding connections_to
  found_to te c (id, parent, up, found, other, same) =
      let single : connections_to m te ≡ connection parent te ∷ [] =
        rw (connections_to, up, found, other) refl in
      subst (In c) (sym single) (inl same)

  connections_from-source :
      (rest : List TimelineEvent) (c : CrossServiceConnection)
      → In c (connections_from m rest)
      → (te : TimelineEvent) × In te rest × In c (connections_to m te)
  unfolding connections_from
  connections_from-source [] c i = absurd i
  connections_from-source (te ∷ rest) c i =
      elim (In-append_cases c (connections_to m te) (connections_from m rest) i) [
        | inl here ↦ (te, inl refl, here)
        | inr later ↦
            let found = connections_from-source rest c later in (found.0, inr found.1, found.2)
      ]

  In-connections_from :
      (te : TimelineEvent) (rest : List TimelineEvent) (c : CrossServiceConnection)
      → In te rest
      → In c (connections_to m te)
      → In c (connections_from m rest)
  unfolding connections_from
  In-connections_from te [] c i j = absurd i
  In-connections_from te (x ∷ rest) c (inl same) j =
      In-append_left c (connections_to m x) (connections_from m rest)
        (subst (λ y. In c (connections_to m y)) (sym same) j)
  In-connections_from te (x ∷ rest) c (inr i) j =
      In-append_right c (connections_to m x) (connections_from m rest)
        (In-connections_from te rest c i j)

-- Where no two events have the same id, the connections are from each event to each of its children
-- in another service, and their latency is the time from the end of the event to the start of the
-- child, and zero where the child starts earlier.
pub connections-IsConnection :
    (events : List TimelineEvent) (c : CrossServiceConnection)
    → Distinct (map (λ (te : TimelineEvent). (te.event).id) events)
    → In c (connections events) ↔ IsConnection events c
unfolding connections event_map
connections-IsConnection events c distinct = (
  (λ i.
      let m = event_map events in
      let (te, there, to) = connections_from-source m events c i in
      let (id, parent, up, found, other, same) = connections_to-IsFound m te c to in
      let from = new_map-source id_of id parent events found in
      subst (IsConnection events) same
        (from.0, there, up ∙ ap (λ t. some t) (sym from.1), other, refl)),
  (λ (from, to, up, other, latency).
      let m = event_map events in
      let same : connection c.from c.to ≡ c =
        ap (λ n. record { from = c.from; to = c.to; latency = n }) (sym latency) in
      In-connections_from m c.to events c to (
        found_to m c.to c (
          id_of c.from,
          c.from,
          up,
          new_map-named id_of c.from events distinct from,
          other,
          same,
        ))),
)
