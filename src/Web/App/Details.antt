-- ===== src/Web/App/Details.antt =====
-- web/src/App.tsx: the details of the selected trace. fetchTraceDetails is cut at its `await`:
-- `fetch_trace_details` goes up to the request, `receive` from the answer to the end. A change of
-- the selection runs with the two effects that depend on it, as React runs them after the next
-- render. A signal that aborts a request is the answer `aborted` to it.
-- Trace ids are not empty, as the patterns for paths have it.
pub mod Current
pub mod Loading
use raceway.Prelude.{
  ℕ, zero, suc, Bool, true, false, not, ◌&&◌, List, [], ◌∷◌, ◌++◌, Option, none, some, length,
  get_elem?, if◌then◌else◌,
}
use raceway.Text.{Text, ◌==◌}
use raceway.Json.{Json, Fields}
use raceway.Web.Types.{Event}

-- The fields that are only rendered are `rest`.
pub record CriticalPathData : Type 0 where
  pub trace_id : Text
  pub rest : Fields

pub record DependenciesData : Type 0 where
  pub trace_id : Text
  pub rest : Fields

pub record AnomaliesData : Type 0 where
  pub trace_id : Text
  pub anomaly_count : ℕ
  pub anomalies : List Json

-- What the code tests for being there may be missing.
pub record FullTraceAnalysisData : Type 0 where
  pub trace_id : Text
  pub events : List Event
  pub audit_trails : Option Fields
  pub potential_races : Option ℕ
  pub analysis_anomalies : Option (List Text)
  pub critical_path : Option CriticalPathData
  pub anomalies : Option (List Json)
  pub dependencies : Option DependenciesData

-- `failed` has the message of the error.
pub data Answer : Type 0 where
  answered : Option FullTraceAnalysisData → Answer
  aborted : Answer
  failed : Text → Answer

pub record Request : Type 0 where
  pub trace_id : Text
  pub silent : Bool

-- `loading_trace_id` is the ref, `requests` are those that have no answer yet.
pub record Details : Type 0 where
  pub selected_trace_id : Option Text
  pub loading_trace_id : Option Text
  pub loading : Bool
  pub error : Option Text
  pub events : List Event
  pub race_count : ℕ
  pub race_info : List Text
  pub critical_path_data : Option CriticalPathData
  pub anomalies_data : Option AnomaliesData
  pub dependencies_data : Option DependenciesData
  pub audit_trails : Fields
  pub requests : List Request

abbrev pub start : Details
start = record {
  selected_trace_id = none;
  loading_trace_id = none;
  loading = false;
  error = none;
  events = [];
  race_count = 0;
  race_info = [];
  critical_path_data = none;
  anomalies_data = none;
  dependencies_data = none;
  audit_trails = Fields.end;
  requests = [];
}

abbrev pub or_default {ℓ} : {A : Type ℓ} → Option A → A → A
or_default none d = d
or_default (some a) d = a

abbrev pub or_keep {ℓ} : {A : Type ℓ} → Option A → Option A → Option A
or_keep none old = old
or_keep (some a) old = some a

-- fetchTraceDetails, up to its request
unfoldable pub fetch_trace_details : Request → Details → Details
fetch_trace_details r s = record s {
  loading_trace_id = some r.trace_id;
  loading = if r.silent then s.loading else true;
  error = if r.silent then s.error else none;
  requests = s.requests ++ r ∷ [];
}

-- loadingTraceIdRef.current === traceId
abbrev pub is_current : Text → Option Text → Bool
is_current id none = false
is_current id (some current) = current == id

-- anomalies && anomalies.length > 0
abbrev pub new_anomalies : Text → Option (List Json) → Option AnomaliesData → Option AnomaliesData
new_anomalies id none old = old
new_anomalies id (some []) old = old
new_anomalies id (some (a ∷ as_)) old =
    some (record { trace_id = id; anomaly_count = suc (length as_); anomalies = a ∷ as_ })

unfoldable pub show_data : Text → Option FullTraceAnalysisData → Details → Details
show_data id none s = s
show_data id (some d) s = record s {
  events = d.events;
  race_count = or_default d.potential_races 0;
  race_info = or_default d.analysis_anomalies [];
  critical_path_data = or_keep d.critical_path s.critical_path_data;
  anomalies_data = new_anomalies id d.anomalies s.anomalies_data;
  dependencies_data = or_keep d.dependencies s.dependencies_data;
  audit_trails = or_default d.audit_trails s.audit_trails;
}

-- the `finally` block
unfoldable pub finish : Request → Details → Details
finish r s = record s {
  loading = if not r.silent && is_current r.trace_id s.loading_trace_id then false else s.loading;
}

-- fetchTraceDetails, from the answer
unfoldable pub receive : Request → Answer → Details → Details
unfolding show_data finish
receive r (answered found) s =
    if is_current r.trace_id s.loading_trace_id
    then finish r (record (show_data r.trace_id found s) { error = none })
    else finish r s
receive r aborted s = finish r s
receive r (failed message) s =
    if is_current r.trace_id s.loading_trace_id
    then finish r (record s { error = some message })
    else finish r s

-- The part about traces of the effect that refreshes, at once and at each tick of its interval.
unfoldable pub refresh : Details → Details
unfolding fetch_trace_details
refresh s = elim s.selected_trace_id [
  | none ↦ s
  | some id ↦ fetch_trace_details (record { trace_id = id; silent = true }) s
]

-- The effect of a new selection.
unfoldable pub load_selected : Details → Details
unfolding fetch_trace_details
load_selected s = elim s.selected_trace_id [
  | none ↦ s
  | some id ↦
      fetch_trace_details (record { trace_id = id; silent = false })
        (record s {
          dependencies_data = none;
          audit_trails = Fields.end;
          critical_path_data = none;
          anomalies_data = none;
        })
]

abbrev pub same_selection : Option Text → Option Text → Bool
same_selection none none = true
same_selection (some a) (some b) = a == b
same_selection _ _ = false

-- setSelectedTraceId, and the effects in their order if the value is another
unfoldable pub select : Option Text → Details → Details
unfolding refresh load_selected
select id s =
    if same_selection s.selected_trace_id id
    then s
    else load_selected (refresh (record s { selected_trace_id = id }))
