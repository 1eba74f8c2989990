-- ===== src/Web/Layout/Timeline.antt =====
-- `computeTimelineLayout` of web/src/lib/debugger-layout.ts. The text of a timestamp is read by
-- `new Date(…).getTime()`, the parameter `get_time`. The horizontal positions, and
-- `timeScale` which computes them in floating point, are left out.
use raceway.Prelude.{
  ℕ, suc, ◌+◌, ◌*◌, ◌/◌, List, [], ◌∷◌, ◌++◌, map, length, leb, ltb, ◌&&◌, nat_eq, if◌then◌else◌,
}
use raceway.Text.{Text, codes, includes, slice}
use raceway.Text.Split.{cons_head}
use raceway.Maps.{push}
use raceway.Web.Types.{Event}
use raceway.Web.Layout.Edges.{TimelineNode, TimelineEdge, compute_causal_edges}

pub record Swimlane : Type 0 where
  pub id : Text
  pub label : Text
  pub events : List TimelineNode
  pub y : ℕ

pub record TimelineLayout : Type 0 where
  pub nodes : List TimelineNode
  pub edges : List TimelineEdge
  pub swimlanes : List Swimlane
  pub width : ℕ
  pub height : ℕ

-- s.split(`${a}${b}`)
split_pair : ℕ → ℕ → Text → List Text
split_pair a b [] = [] ∷ []
split_pair a b (c ∷ []) = (c ∷ []) ∷ []
split_pair a b (c ∷ d ∷ s) =
    let after = split_pair a b s in
    let within = split_pair a b (d ∷ s) in
    if nat_eq c a && nat_eq d b then [] ∷ after else cons_head c within

last_part : List Text → Text
last_part [] = []
last_part (s ∷ []) = s
last_part (s ∷ t ∷ rest) = last_part (t ∷ rest)

unfoldable pub get_thread_label : Text → Text
unfolding codes includes split_pair last_part
get_thread_label thread_id =
    if includes thread_id (codes "::")
    then last_part (split_pair b':' b':' thread_id)
    else if ltb 16 (length thread_id)
    then slice 0 13 thread_id ++ codes "..."
    else thread_id

-- threadMap.get(threadId).push(event), for each event
unfoldable pub group_by_thread : List Event → List (Text × List Event) → List (Text × List Event)
unfolding push
group_by_thread [] threads = threads
group_by_thread (event ∷ rest) threads =
    group_by_thread rest (push event.metadata.thread_id event threads)

abbrev pub lane_height : ℕ
lane_height = 80

abbrev pub lane_spacing : ℕ
lane_spacing = 20

abbrev pub node_at : ℕ → ℕ → Event → TimelineNode
node_at y lane_index event = record { id = event.id; event = event; y = y; lane_index = lane_index }

unfoldable pub lanes_from : ℕ → List (Text × List Event) → List Swimlane
unfolding get_thread_label
lanes_from lane_index [] = []
lanes_from lane_index ((thread_id, thread_events) ∷ rest) =
    let y = lane_index * (lane_height + lane_spacing) + lane_height / 2 in
    let lane : Swimlane = record {
      id = thread_id;
      label = get_thread_label thread_id;
      events = map (node_at y lane_index) thread_events;
      y = y;
    } in
    lane ∷ lanes_from (suc lane_index) rest

-- the nodes of all lanes, in the order in which they are pushed
unfoldable pub nodes_of : List Swimlane → List TimelineNode
nodes_of [] = []
nodes_of (lane ∷ rest) = lane.events ++ nodes_of rest

module _ (get_time : Text → ℕ) where
  unfoldable pub insert_sorted : Event → List Event → List Event
  insert_sorted e [] = e ∷ []
  insert_sorted e (f ∷ fs) =
      let rest = insert_sorted e fs in
      if leb (get_time e.timestamp) (get_time f.timestamp) then e ∷ f ∷ fs else f ∷ rest

  -- [...events].sort(…), which is stable
  unfoldable pub sorted_events : List Event → List Event
  unfolding insert_sorted
  sorted_events [] = []
  sorted_events (e ∷ es) = insert_sorted e (sorted_events es)

  unfoldable pub compute_timeline_layout : List Event → ℕ → TimelineLayout
  unfolding sorted_events group_by_thread lanes_from nodes_of compute_causal_edges
  compute_timeline_layout [] container_width = record {
    nodes = [];
    edges = [];
    swimlanes = [];
    width = container_width;
    height = 0;
  }
  compute_timeline_layout (e ∷ es) container_width =
      let sorted = sorted_events (e ∷ es) in
      let swimlanes = lanes_from 0 (group_by_thread sorted []) in
      let nodes = nodes_of swimlanes in
      record {
        nodes = nodes;
        edges = compute_causal_edges nodes sorted;
        swimlanes = swimlanes;
        width = container_width;
        height = length swimlanes * (lane_height + lane_spacing);
      }
