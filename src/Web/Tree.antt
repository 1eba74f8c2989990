-- ===== src/Web/Tree.antt =====
-- web/src/components/features/events/TreeView.tsx: the groups of events that the view shows. The
-- trees of the groups, which are drawn from the same map of children, are left out. A recursion or a
-- loop along parents is bounded by a number of rounds; `none` is to run out of it.
pub mod Chains
pub mod Cover
pub mod Ends
pub mod Members
pub mod Shown
pub mod Tests
use raceway.Prelude.{
  ℕ, zero, suc, ◌-◌, min, max, Bool, true, false, not, ◌&&◌, List, [], ◌∷◌, ◌++◌, Option, none,
  some, map, length, filter, sort_by, traverse, concat, if◌then◌else◌,
}
use raceway.Text.{Text, codes, ◌==◌}
use raceway.Json.{Json, Fields, end, field, field_value, member}
use raceway.Maps.{contains, get, push, or_nil}
use raceway.Web.Types.{Event}
use raceway.Web.Kinds.{Browser, fields, is_kind, is_object, text_or, parse_object}
use raceway.Web.Graph.{parent_of, find_node}

pub record Group : Type 0 where
  pub id : Text
  pub title : Text
  pub service : Text
  pub root_event : Event
  pub all_events : List Event
  pub start_time : ℕ
  pub end_time : ℕ
  pub duration : ℕ

-- 'HttpRequest' in event.kind
unfoldable pub is_http_request : Event → Bool
unfolding is_kind codes
is_http_request event = is_kind (codes "HttpRequest") (fields event.kind)

-- getEventKind; but for requests, its branches are those of event-utils.ts, word for word
unfoldable pub get_event_kind : Browser → Fields → Text
unfolding codes text_or member parse_object
get_event_kind browser end = codes "Unknown"
get_event_kind browser (field key value rest) =
    if not (is_object browser value)
    then key
    else if key == codes "HttpRequest"
    then codes "HttpRequest | "
      ++ (text_or browser (member (codes "method") value) (codes "GET")
          ++ (codes " "
              ++ text_or browser (member (codes "url") value)
                  (text_or browser (member (codes "path") value) (codes "unknown"))))
    else (parse_object browser key value).display

-- For an `HttpRequest` that is null the source throws; here the defaults stand.
unfoldable pub get_transaction_title : Browser → Event → Text
unfolding codes text_or member field_value get_event_kind
get_transaction_title browser event = elim (field_value (codes "HttpRequest") event.kind) [
  | none ↦ get_event_kind browser event.kind
  | some request ↦
      text_or browser (member (codes "method") request) (codes "GET")
      ++ (codes " "
          ++ text_or browser (member (codes "url") request)
              (text_or browser (member (codes "path") request) (codes "/")))
]

abbrev pub Children : Type 0
Children = List (Text × List Event)

-- the loop that fills childrenMap
unfoldable pub add_children : List Event → Children → Children
unfolding parent_of push
add_children [] m = m
add_children (e ∷ es) m = elim (parent_of e) [
  | none ↦ add_children es m
  | some id ↦ add_children es (push id e m)
]

abbrev pub children_map : List Event → Children
unfolding add_children
children_map events = add_children events []

-- childrenMap.get(id) || []
abbrev pub children_of : Children → Text → List Event
unfolding get
children_of m id = or_nil (get id m)

-- The children, and what the loop over the children pushes after them.
abbrev pub after : List Event → Option (List (List Event)) → Option (List Event)
after children none = none
after children (some pieces) = some (children ++ concat pieces)

-- The body of getAllDescendants; `call` is the recursive call.
unfoldable pub descendants_step :
    (Text → Option (List Event)) → Children → Text → Option (List Event)
unfolding get
descendants_step call m id =
    let children = children_of m id in after children (traverse (λ child. call child.id) children)

unfoldable pub get_all_descendants : ℕ → Children → Text → Option (List Event)
unfolding descendants_step
get_all_descendants zero m = descendants_step (λ id. none) m
get_all_descendants (suc rounds) m = descendants_step (get_all_descendants rounds m) m

-- One round of the loop that looks for a request among the ancestors.
unfoldable pub is_root_step : (Event → Option Bool) → List Event → Event → Option Bool
unfolding parent_of find_node is_http_request
is_root_step next events current = elim (parent_of current) [
  | none ↦ some true
  | some id ↦ elim (find_node id events) [
    | none ↦ some true
    | some parent ↦ if is_http_request parent then some false else next parent
  ]
]

unfoldable pub is_root : ℕ → List Event → Event → Option Bool
unfolding is_root_step
is_root zero events = is_root_step (λ parent. none) events
is_root (suc rounds) events = is_root_step (is_root rounds events) events

-- Whether an event is a transaction root. No event is processed before the groups are built.
unfoldable pub is_transaction_root : List Event → Event → Option Bool
unfolding is_http_request is_root
is_transaction_root events event =
    if is_http_request event then is_root (length events) events event else some false

abbrev pub if_root : Event → Option Bool → Option (List Event)
if_root event none = none
if_root event (some b) = some (if b then event ∷ [] else [])

-- the loop that fills transactionRoots
unfoldable pub transaction_roots : List Event → Option (List Event)
unfolding is_transaction_root
transaction_roots events =
    after [] (traverse (λ event. if_root event (is_transaction_root events event)) events)

-- Math.min(...timestamps) and Math.max(...timestamps)
unfoldable pub least : ℕ → List ℕ → ℕ
least t [] = t
least t (u ∷ us) = least (min t u) us

unfoldable pub greatest : ℕ → List ℕ → ℕ
greatest t [] = t
greatest t (u ∷ us) = greatest (max t u) us

abbrev pub has_no_parent : Event → Bool
unfolding parent_of
has_no_parent event = elim (parent_of event) [ none ↦ true | some id ↦ false ]

abbrev pub processed : List Group → List Text
processed groups = map (λ e. e.id) (concat (map (λ g. g.all_events) groups))

-- The events without a parent that are in no group of a transaction.
unfoldable pub ungrouped_roots : List Group → List Event → List Event
unfolding contains
ungrouped_roots groups events =
    filter has_no_parent (filter (λ e. not (contains e.id (processed groups))) events)

unfoldable pub sorted_groups : List Group → Option (List Group) → Option (List Group)
unfolding sort_by
sorted_groups groups none = none
sorted_groups groups (some others) = some (sort_by (λ g. g.start_time) (groups ++ others))

module _ (browser : Browser) (get_time : Text → ℕ) where
  unfoldable pub new_group : (Event → Text) → Event → List Event → Group
  unfolding least greatest
  new_group title root below =
      let times = map (λ e. get_time e.timestamp) below in
      let start = least (get_time root.timestamp) times in
      let last = greatest (get_time root.timestamp) times in
      record {
        id = root.id;
        title = title root;
        service = root.metadata.service_name;
        root_event = root;
        all_events = root ∷ below;
        start_time = start;
        end_time = last;
        duration = last - start;
      }

  abbrev pub if_found : (Event → Text) → Event → Option (List Event) → Option Group
  unfolding new_group
  if_found title root none = none
  if_found title root (some below) = some (new_group title root below)

  unfoldable pub group_of : (Event → Text) → List Event → Event → Option Group
  unfolding get_all_descendants add_children new_group
  group_of title events root =
      if_found title root (get_all_descendants (length events) (children_map events) root.id)

  unfoldable pub with_others : List Event → Option (List Group) → Option (List Group)
  unfolding ungrouped_roots group_of get_event_kind
  with_others events none = none
  with_others events (some groups) = sorted_groups groups (
      traverse (group_of (λ root. get_event_kind browser root.kind) events)
        (ungrouped_roots groups events))

  unfoldable pub with_roots : List Event → Option (List Event) → Option (List Group)
  unfolding group_of get_transaction_title
  with_roots events none = none
  with_roots events (some roots) =
      with_others events (traverse (group_of (get_transaction_title browser) events) roots)

  unfoldable pub transaction_groups : List Event → Option (List Group)
  unfolding transaction_roots
  transaction_groups events = with_roots events (transaction_roots events)
