-- ===== src/Web/App/Routes/Shows.antt =====
-- The state that follows a path is the one that led to it (web/src/App.tsx).
use raceway.Prelude.{◌≡◌, Bool, true, Option, none, some, if◌then◌else◌}
use raceway.Text.{Text, codes, ◌==◌, is_truthy}
use raceway.Text.Split.{Lacks}
use raceway.Web.App.Routes.{
  View, Uri, trace_path, event_path, service_path, service_traces_path, service_dependencies_path,
  dashboard_path, hotspots_path, dependency_graph_path,
}

-- A part of a path: not empty, and without a slash.
abbrev pub IsPart : Text → Type 0
IsPart t = (is_truthy t ≡ true) × Lacks b'/' t

-- encodeURIComponent makes parts of texts that are not empty, and decodeURIComponent undoes it.
pub record IsUri (uri : Uri) : Type 0 where
  pub decodes : (t : Text) → uri.decode (uri.encode t) ≡ t
  pub makes_parts : (t : Text) → is_truthy t ≡ true → IsPart (uri.encode t)

-- Where a trace is shown.
abbrev pub on_trace : Text → Text → Option Text → View → View
unfolding codes
on_trace trace_id tab event_id v = record v {
  sidebar_mode = codes "traces";
  selected_trace_id = some trace_id;
  view_mode = tab;
  selected_event_id = event_id;
  selected_service_name = none;
}

abbrev pub on_service : Text → Text → View → View
unfolding codes
on_service name tab v = record v {
  sidebar_mode = codes "system";
  system_view_mode = codes "services";
  selected_service_name = some name;
  service_view_mode = tab;
  selected_trace_id = none;
  selected_event_id = none;
}

-- What the interface has links to.
pub data Target : Type 0 where
  dashboard hotspots dependency_graph : Target
  trace : (preserve_view_mode : Bool) (trace_id : Text) → Target
  event : (trace_id event_id : Text) → Target
  service service_traces service_dependencies : (name : Text) → Target

unfoldable pub path_to : Uri → Text → Target → Text
unfolding trace_path event_path service_path service_traces_path service_dependencies_path
    dashboard_path hotspots_path dependency_graph_path
path_to uri view_mode dashboard = dashboard_path
path_to uri view_mode hotspots = hotspots_path
path_to uri view_mode dependency_graph = dependency_graph_path
path_to uri view_mode (trace preserve id) = trace_path view_mode preserve id
path_to uri view_mode (event trace_id id) = event_path view_mode trace_id id
path_to uri view_mode (service name) = service_path uri name
path_to uri view_mode (service_traces name) = service_traces_path uri name
path_to uri view_mode (service_dependencies name) = service_dependencies_path uri name

-- Ids are parts of paths as they are; names are encoded.
abbrev pub IsTarget : Target → Type 0
IsTarget (trace preserve id) = IsPart id
IsTarget (event trace_id id) = IsPart trace_id × IsPart id
IsTarget (service name) = is_truthy name ≡ true
IsTarget (service_traces name) = is_truthy name ≡ true
IsTarget (service_dependencies name) = is_truthy name ≡ true
IsTarget _ = Unit

abbrev pub on_insights : Text → View → View
unfolding codes
on_insights tab v = record v {
  sidebar_mode = codes "system";
  system_view_mode = codes "insights";
  insights_view_mode = tab;
  selected_trace_id = none;
  selected_event_id = none;
  selected_service_name = none;
}

-- The view of a target, which keeps the tab of traces, if that is asked for.
abbrev pub view_of : Target → View → View
unfolding codes ◌==◌
view_of dashboard v = on_insights (codes "dashboard") v
view_of hotspots v = on_insights (codes "hotspots") v
view_of dependency_graph v = on_insights (codes "dependency-graph") v
view_of (trace preserve id) v =
    on_trace id (if preserve then v.view_mode else codes "overview") none v
view_of (event trace_id id) v =
    on_trace trace_id v.view_mode (if v.view_mode == codes "events" then some id else none) v
view_of (service name) v = on_service name (codes "overview") v
view_of (service_traces name) v = on_service name (codes "traces") v
view_of (service_dependencies name) v = on_service name (codes "dependencies") v
