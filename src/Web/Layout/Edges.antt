-- ===== src/Web/Layout/Edges.antt =====
-- `computeCausalEdges` of web/src/lib/debugger-layout.ts. The SVG path of an edge and the horizontal
-- position of a node, which are drawing with floating-point numbers, are left out.
pub mod Direct
pub mod Complete
pub mod Sound
use raceway.Prelude.{
  ℕ, Bool, true, false, not, ◌&&◌, List, [], ◌∷◌, ◌++◌, Option, none, some, map, any, if◌then◌else◌,
}
use raceway.Text.{Text, ◌==◌, is_truthy}
use raceway.Maps.{get, new_map}
use raceway.Web.Types.{Event}
use raceway.Web.Layout.Causality.{happens_before}

pub record TimelineNode : Type 0 where
  pub id : Text
  pub event : Event
  pub y : ℕ
  pub lane_index : ℕ

pub data EdgeType : Type 0 where
  parent causal : EdgeType

pub record TimelineEdge : Type 0 where
  pub source : Text
  pub target : Text
  pub type : EdgeType

-- new Map(nodes.map(n => [n.id, n]))
unfoldable pub node_map : List TimelineNode → List (Text × TimelineNode)
node_map nodes = new_map (map (λ n. (n.id, n)) nodes)

-- the edge from the node of an id, if there is one
unfoldable pub edge_from :
    List (Text × TimelineNode) → Text → TimelineNode → EdgeType → List TimelineEdge
edge_from nodes id target type = elim (get id nodes) [
  | none ↦ []
  | some source ↦ record { source = source.id; target = target.id; type = type } ∷ []
]

-- if (event.parent_id) …
unfoldable pub parent_edge : List (Text × TimelineNode) → Event → TimelineNode → List TimelineEdge
parent_edge nodes event target = elim event.parent_id [
  | none ↦ []
  | some id ↦ if is_truthy id then edge_from nodes id target parent else []
]

-- otherEvent.id === event.parent_id
abbrev pub is_parent : Text → Option Text → Bool
is_parent id none = false
is_parent id (some other) = id == other

unfoldable pub is_between : Event → Event → Event → Bool
unfolding happens_before
is_between other event intermediate =
    not (intermediate.id == other.id)
    && not (intermediate.id == event.id)
    && happens_before other intermediate
    && happens_before intermediate event

unfoldable pub has_intermediate : List Event → Event → Event → Bool
unfolding is_between
has_intermediate events other event = any (is_between other event) events

-- the body of the inner loop
unfoldable pub causal_edge :
    List (Text × TimelineNode) → List Event → Event → TimelineNode → Event → List TimelineEdge
unfolding has_intermediate edge_from
causal_edge nodes events event target other =
    if other.id == event.id
    then []
    else if is_parent other.id event.parent_id
    then []
    else if happens_before other event && not (has_intermediate events other event)
    then edge_from nodes other.id target causal
    else []

unfoldable pub causal_edges :
    List (Text × TimelineNode) → List Event → Event → TimelineNode → List Event → List TimelineEdge
unfolding causal_edge
causal_edges nodes events event target [] = []
causal_edges nodes events event target (other ∷ rest) =
    causal_edge nodes events event target other ++ causal_edges nodes events event target rest

-- the body of the outer loop
unfoldable pub edges_into : List (Text × TimelineNode) → List Event → Event → List TimelineEdge
unfolding parent_edge causal_edges
edges_into nodes events event = elim (get event.id nodes) [
  | none ↦ []
  | some target ↦ parent_edge nodes event target ++ causal_edges nodes events event target events
]

unfoldable pub edges_of : List (Text × TimelineNode) → List Event → List Event → List TimelineEdge
unfolding edges_into
edges_of nodes events [] = []
edges_of nodes events (event ∷ rest) = edges_into nodes events event ++ edges_of nodes events rest

unfoldable pub compute_causal_edges : List TimelineNode → List Event → List TimelineEdge
unfolding node_map edges_of
compute_causal_edges nodes events = edges_of (node_map nodes) events events
