-- ===== src/Web/App/Routes.antt =====
-- web/src/App.tsx: the paths that the application navigates to, and what it takes from the path. The
-- modes are kept as texts, as the casts of the source take any. The encoding of parts of a path is a
-- parameter.
pub mod Shows
use raceway.Prelude.{
  Bool, true, false, not, ◌&&◌, List, [], ◌∷◌, ◌++◌, Option, none, some, if◌then◌else◌,
}
use raceway.Text.{Text, codes, ◌==◌, is_truthy, or_else}
use raceway.Text.Split.{split}

pub record View : Type 0 where
  pub sidebar_mode : Text
  pub system_view_mode : Text
  pub insights_view_mode : Text
  pub view_mode : Text
  pub service_view_mode : Text
  pub selected_trace_id : Option Text
  pub selected_event_id : Option Text
  pub selected_service_name : Option Text

unfoldable pub first_view : View
unfolding codes
first_view = record {
  sidebar_mode = codes "system";
  system_view_mode = codes "insights";
  insights_view_mode = codes "dashboard";
  view_mode = codes "overview";
  service_view_mode = codes "overview";
  selected_trace_id = none;
  selected_event_id = none;
  selected_service_name = none;
}

-- encodeURIComponent and decodeURIComponent
pub record Uri : Type 0 where
  pub encode : Text → Text
  pub decode : Text → Text

-- The path of a trace
unfoldable pub trace_path : Text → Bool → Text → Text
unfolding codes
trace_path view_mode preserve_view_mode trace_id =
    if preserve_view_mode && not (view_mode == codes "overview")
    then codes "/traces/" ++ (trace_id ++ (codes "/" ++ view_mode))
    else codes "/traces/" ++ trace_id

-- handleEventSelect's path, where a trace is selected
unfoldable pub event_path : Text → Text → Text → Text
unfolding codes
event_path view_mode trace_id event_id =
    let base =
      if view_mode == codes "overview"
      then codes "/traces/" ++ trace_id
      else codes "/traces/" ++ (trace_id ++ (codes "/" ++ view_mode)) in
    if view_mode == codes "events" then base ++ (codes "/" ++ event_id) else base

unfoldable pub dashboard_path : Text
unfolding codes
dashboard_path = codes "/"

unfoldable pub hotspots_path : Text
unfolding codes
hotspots_path = codes "/insights/hotspots"

unfoldable pub dependency_graph_path : Text
unfolding codes
dependency_graph_path = codes "/insights/dependency-graph"

module _ (uri : Uri) where
  unfoldable pub service_path : Text → Text
  unfolding codes
  service_path name = codes "/services/" ++ uri.encode name

  unfoldable pub service_traces_path : Text → Text
  unfolding codes
  service_traces_path name = codes "/services/" ++ (uri.encode name ++ codes "/traces")

  unfoldable pub service_dependencies_path : Text → Text
  unfolding codes
  service_dependencies_path name = codes "/services/" ++ (uri.encode name ++ codes "/dependencies")

  -- The parts that the first slash begins: the regular expressions ask that none is empty.
  unfoldable pub sync_parts : Text → List Text → View → View
  unfolding codes
  sync_parts head (tab ∷ []) v =
      if head == codes "insights" && is_truthy tab
      then record v {
        sidebar_mode = codes "system";
        system_view_mode = codes "insights";
        insights_view_mode = tab;
        selected_trace_id = none;
        selected_event_id = none;
        selected_service_name = none;
      }
      else if head == codes "services" && is_truthy tab
      then record v {
        sidebar_mode = codes "system";
        system_view_mode = codes "services";
        selected_service_name = some (uri.decode tab);
        service_view_mode = codes "overview";
        selected_trace_id = none;
        selected_event_id = none;
      }
      else if head == codes "traces" && is_truthy tab
      then record v {
        sidebar_mode = codes "traces";
        selected_trace_id = some tab;
        view_mode = codes "overview";
        selected_event_id = none;
        selected_service_name = none;
      }
      else v
  sync_parts head (name ∷ tab ∷ []) v =
      if head == codes "services" && (is_truthy name && is_truthy tab)
      then record v {
        sidebar_mode = codes "system";
        system_view_mode = codes "services";
        selected_service_name = some (uri.decode name);
        service_view_mode = tab;
        selected_trace_id = none;
        selected_event_id = none;
      }
      else if head == codes "traces" && (is_truthy name && is_truthy tab)
      then record v {
        sidebar_mode = codes "traces";
        selected_trace_id = some name;
        view_mode = tab;
        selected_event_id = none;
        selected_service_name = none;
      }
      else v
  sync_parts head (id ∷ tab ∷ event_id ∷ []) v =
      if head == codes "traces" && (is_truthy id && (is_truthy tab && is_truthy event_id))
      then record v {
        sidebar_mode = codes "traces";
        selected_trace_id = some id;
        view_mode = tab;
        selected_event_id = some event_id;
        selected_service_name = none;
      }
      else v
  sync_parts head _ v = v

  abbrev pub sync_split : List Text → View → View
  sync_split ([] ∷ head ∷ parts) v = sync_parts head parts v
  sync_split _ v = v

  -- The effect that follows the path
  unfoldable pub sync_url : Text → View → View
  unfolding sync_parts split codes
  sync_url path v =
      if path == codes "/"
      then record v {
        sidebar_mode = codes "system";
        system_view_mode = codes "insights";
        insights_view_mode = codes "dashboard";
        selected_trace_id = none;
        selected_event_id = none;
        selected_service_name = none;
      }
      else sync_split (split b'/' path) v

-- handleTraceSelect, with the path that it navigates to
unfoldable pub handle_trace_select : Text → View → View × Text
unfolding trace_path
handle_trace_select trace_id v = (
  record v { selected_trace_id = some trace_id; selected_event_id = none },
  trace_path v.view_mode true trace_id,
)

-- handleEventSelect
unfoldable pub handle_event_select : Text → View → View × Option Text
unfolding event_path
handle_event_select event_id v = (
  record v { selected_event_id = some event_id },
  elim v.selected_trace_id [
    | none ↦ none
    | some trace_id ↦
        if is_truthy trace_id then some (event_path v.view_mode trace_id event_id) else none
  ],
)

-- handleServiceSelect
unfoldable pub handle_service_select : Option Text → View → View
unfolding codes
handle_service_select name v = record v {
  selected_service_name = name;
  service_view_mode = codes "overview";
}
