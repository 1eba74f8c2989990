-- ===== src/Web/App/TraceList.antt =====
-- web/src/App.tsx: the list of traces and its pages. fetchTraces and loadMoreTraces are cut at their
-- `await`. The texts of the status are constructors with the numbers that they show.
pub mod Pages
use raceway.Prelude.{
  ℕ, zero, suc, ◌+◌, ltb, Bool, true, false, not, ◌&&◌, ◌||◌, List, [], ◌∷◌, ◌++◌, Option, none,
  some, if◌then◌else◌,
}
use raceway.Text.{Text, codes}

pub record TraceMetadata : Type 0 where
  pub trace_id : Text
  pub event_count : ℕ
  pub first_timestamp : Text
  pub last_timestamp : Text
  pub service_count : ℕ
  pub services : List Text

-- the data of a TracesListResponse
pub record TracesPage : Type 0 where
  pub total_traces : ℕ
  pub page : ℕ
  pub page_size : ℕ
  pub total_pages : ℕ
  pub traces : List TraceMetadata

pub data Status : Type 0 where
  connecting : Status
  connected : (total_events total_traces : ℕ) → Status
  failure : Text → Status

-- A response with or without data, or the message of an error.
pub data PageAnswer : Type 0 where
  page_of : Option TracesPage → PageAnswer
  error_of : Text → PageAnswer

-- The arguments of RacewayAPI.getTraces.
pub record PageRequest : Type 0 where
  pub page : ℕ
  pub page_size : ℕ
  pub min_events : Option ℕ

pub record TraceList : Type 0 where
  pub traces : List TraceMetadata
  pub current_page : ℕ
  pub has_more_traces : Bool
  pub loading_more : Bool
  pub refreshing : Bool
  pub min_events : ℕ
  pub status : Status

abbrev pub start : TraceList
start = record {
  traces = [];
  current_page = 1;
  has_more_traces = false;
  loading_more = false;
  refreshing = false;
  min_events = 1;
  status = connecting;
}

-- minEvents > 1 ? minEvents : undefined
abbrev min_events_argument : ℕ → Option ℕ
min_events_argument n = if ltb 1 n then some n else none

unfoldable pub total_events : List TraceMetadata → ℕ
total_events [] = 0
total_events (t ∷ ts) = t.event_count + total_events ts

-- fetchTraces, up to its request
unfoldable pub fetch_traces : TraceList → TraceList × PageRequest
fetch_traces s = (
  record s { refreshing = true },
  record { page = 1; page_size = 20; min_events = min_events_argument s.min_events },
)

-- fetchTraces, from the answer
unfoldable pub receive_traces : PageAnswer → TraceList → TraceList
unfolding total_events
receive_traces (page_of none) s = record s { refreshing = false }
receive_traces (page_of (some d)) s = record s {
  traces = d.traces;
  current_page = 1;
  has_more_traces = ltb d.page d.total_pages;
  status = connected (total_events d.traces) d.total_traces;
  refreshing = false;
}
receive_traces (error_of message) s = record s { status = failure message; refreshing = false }

-- loadMoreTraces, up to its request
unfoldable pub load_more_traces : TraceList → TraceList × Option PageRequest
load_more_traces s = if s.loading_more || not s.has_more_traces then (s, none) else (
  record s { loading_more = true },
  some (record {
    page = suc s.current_page;
    page_size = 20;
    min_events = min_events_argument s.min_events;
  }),
)

-- loadMoreTraces, from the answer to its request
unfoldable pub receive_more : PageRequest → PageAnswer → TraceList → TraceList
receive_more r (page_of none) s = record s { loading_more = false }
receive_more r (page_of (some d)) s = record s {
  traces = s.traces ++ d.traces;
  current_page = r.page;
  has_more_traces = ltb d.page d.total_pages;
  loading_more = false;
}
receive_more r (error_of message) s = record s { loading_more = false }

-- setMinEvents; the effect that depends on it calls fetchTraces again
unfoldable pub set_min_events : ℕ → TraceList → TraceList × PageRequest
unfolding fetch_traces
set_min_events n s = fetch_traces (record s { min_events = n })
