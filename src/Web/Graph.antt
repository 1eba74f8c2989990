-- ===== src/Web/Graph.antt =====
-- web/src/components/features/events/TraceDAGView.tsx: the nodes and the links of the causal graph,
-- before the simulation that places them. Its happensBefore is that of debugger-layout.ts, word for
-- word. The label of a node is left out.
pub mod Levels
pub mod Depth
pub mod Tests
use raceway.Prelude.{
  ℕ, zero, suc, nat_eq, Bool, true, false, not, ◌&&◌, List, [], ◌∷◌, ◌++◌, Option, none, some, map,
  any, length, if◌then◌else◌,
}
use raceway.Text.{Text, codes, ◌==◌, is_truthy}
use raceway.Maps.{contains, get, set, new_set}
use raceway.Web.Types.{Event}
use raceway.Web.Layout.Causality.{happens_before}

pub record DagNode : Type 0 where
  pub id : Text
  pub event : Event
  pub service : Text
  pub level : ℕ

pub data LinkType : Type 0 where
  parent causal : LinkType

pub record DagLink : Type 0 where
  pub source : Text
  pub target : Text
  pub type : LinkType

-- event.parent_id, where it is truthy
unfoldable pub parent_of : Event → Option Text
parent_of event = elim event.parent_id [
  | none ↦ none
  | some id ↦ if is_truthy id then some id else none
]

unfoldable pub parent_links : List Event → List DagLink
unfolding parent_of
parent_links [] = []
parent_links (event ∷ events) = elim (parent_of event) [
  | none ↦ parent_links events
  | some id ↦ record { source = id; target = event.id; type = parent } ∷ parent_links events
]

-- `${source}->${target}`
unfoldable pub link_key : Text → Text → Text
unfolding codes
link_key source target = source ++ (codes "->" ++ target)

-- The events with their indices, from one on.
unfoldable pub indexed : ℕ → List Event → List (ℕ × Event)
indexed i [] = []
indexed i (e ∷ es) = (i, e) ∷ indexed (suc i) es

-- the loop over k
unfoldable pub is_direct : List (ℕ × Event) → (a b : ℕ × Event) → Bool
unfolding happens_before
is_direct events a b = not (
    any
      (λ c.
        not (nat_eq c.0 a.0)
        && (not (nat_eq c.0 b.0) && (happens_before a.1 c.1 && happens_before c.1 b.1)))
      events)

-- the body of the loop over j
unfoldable pub causal_link : List (ℕ × Event) → List Text → (a b : ℕ × Event) → List DagLink
unfolding happens_before link_key is_direct contains
causal_link events parent_set a b =
    if nat_eq a.0 b.0
    then []
    else if happens_before a.1 b.1
        && (not (contains (link_key (a.1).id (b.1).id) parent_set) && is_direct events a b)
    then record { source = (a.1).id; target = (b.1).id; type = causal } ∷ []
    else []

unfoldable pub links_from :
    List (ℕ × Event) → List Text → ℕ × Event → List (ℕ × Event) → List DagLink
unfolding causal_link
links_from events parent_set a [] = []
links_from events parent_set a (b ∷ rest) =
    causal_link events parent_set a b ++ links_from events parent_set a rest

unfoldable pub links_of : List (ℕ × Event) → List Text → List (ℕ × Event) → List DagLink
unfolding links_from
links_of events parent_set [] = []
links_of events parent_set (a ∷ rest) =
    links_from events parent_set a events ++ links_of events parent_set rest

unfoldable pub links : List Event → List DagLink
unfolding parent_links links_of indexed link_key new_set
links events =
    let parents = parent_links events in
    let numbered = indexed 0 events in
    parents ++ links_of numbered (new_set (map (λ l. link_key l.source l.target) parents)) numbered

abbrev pub Levels : Type 0
Levels = List (Text × ℕ)

-- events.find(e => e.id === nodeId)
unfoldable pub find_node : Text → List Event → Option Event
find_node id [] = none
find_node id (e ∷ es) = if e.id == id then some e else find_node id es

-- The parent that the walk goes on with: none, if the event is not there or has no parent.
unfoldable pub next_node : Text → List Event → Option Text
unfolding find_node parent_of
next_node id events = elim (find_node id events) [ none ↦ none | some node ↦ parent_of node ]

-- The body of calculateLevel, with the level map that it changes; `call` is the call for the parent.
unfoldable pub level_step :
    (Text → List Text → Levels → Option (ℕ × Levels))
    → List Event
    → Text
    → List Text
    → Levels
    → Option (ℕ × Levels)
unfolding next_node get set contains
level_step call events id visited levels = elim (get id levels) [
  | some n ↦ some (n, levels)
  | none ↦ if contains id visited then some (0, levels) else elim (next_node id events) [
    | none ↦ some (0, set id 0 levels)
    | some up ↦ elim (call up (id ∷ visited) levels) [
      | none ↦ none
      | some above ↦ some (suc above.0, set id (suc above.0) above.1)
    ]
  ]
]

-- calculateLevel with at most as many nested calls as the first number says
unfoldable pub calculate_level : ℕ → List Event → Text → List Text → Levels → Option (ℕ × Levels)
unfolding level_step
calculate_level zero events = level_step (λ up visited levels. none) events
calculate_level (suc fuel) events = level_step (calculate_level fuel events) events

-- events.forEach(event => calculateLevel(event.id))
unfoldable pub calculate_levels : List Event → List Event → Levels → Option Levels
unfolding calculate_level
calculate_levels events [] levels = some levels
calculate_levels events (e ∷ rest) levels =
    elim (calculate_level (length events) events e.id [] levels) [
      | none ↦ none
      | some r ↦ calculate_levels events rest r.1
    ]

abbrev pub or_zero : Option ℕ → ℕ
or_zero none = 0
or_zero (some n) = n

unfoldable pub node_of : Levels → Event → DagNode
unfolding get codes
node_of levels e = record {
  id = e.id;
  event = e;
  service = if is_truthy e.metadata.service_name then e.metadata.service_name else codes "unknown";
  level = or_zero (get e.id levels);
}

-- The nodes, with their levels, and the links; for no events the source has null instead.
unfoldable pub dag_structure : List Event → Option (List DagNode × List DagLink)
unfolding calculate_levels node_of links
dag_structure events = elim (calculate_levels events events []) [
  | none ↦ none
  | some levels ↦ some (map (node_of levels) events, links events)
]
