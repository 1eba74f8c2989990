-- ===== src/Sdk/Types.antt =====
-- sdks/typescript/src/types.ts: events, the configuration, and the context of a request.
-- A field of type `any` is a JSON value; counters, statuses and durations are whole numbers.
use raceway.Prelude.{ℕ, Bool, List, Option}
use raceway.Text.{Text}
use raceway.Json.{Json, Fields}

-- Array<[string, number]>
abbrev pub ClockVector : Type 0
ClockVector = List (Text × ℕ)

pub data AccessType : Type 0 where
  read write : AccessType

pub record FunctionCallEvent : Type 0 where
  pub function_name : Text
  pub module_name : Text
  pub args : Fields
  pub file : Text
  pub line : ℕ

pub record StateChangeEvent : Type 0 where
  pub variable : Text
  pub old_value : Json
  pub new_value : Json
  pub location : Text
  pub access_type : AccessType

pub record AsyncSpawnEvent : Type 0 where
  pub task_id : Text
  pub spawned_by : Text

pub record AsyncAwaitEvent : Type 0 where
  pub future_id : Text
  pub awaited_at : Text

pub record HttpRequestEvent : Type 0 where
  pub method : Text
  pub url : Text
  pub headers : List (Text × Text)
  pub body : Json

pub record HttpResponseEvent : Type 0 where
  pub status : ℕ
  pub headers : List (Text × Text)
  pub body : Json
  pub duration_ms : ℕ

pub record DatabaseQueryEvent : Type 0 where
  pub query : Text
  pub database : Text
  pub duration_ms : ℕ

pub record DatabaseResultEvent : Type 0 where
  pub rows_affected : ℕ

pub record ErrorEvent : Type 0 where
  pub error_type : Text
  pub message : Text
  pub stack_trace : List Text

pub record CustomEvent : Type 0 where
  pub name : Text
  pub payload : Fields

pub record LockAcquireEvent : Type 0 where
  pub lock_id : Text
  pub lock_type : Text
  pub location : Text

pub record LockReleaseEvent : Type 0 where
  pub lock_id : Text
  pub lock_type : Text
  pub location : Text

pub data EventData : Type 0 where
  function_call : FunctionCallEvent → EventData
  state_change : StateChangeEvent → EventData
  async_spawn : AsyncSpawnEvent → EventData
  async_await : AsyncAwaitEvent → EventData
  http_request : HttpRequestEvent → EventData
  http_response : HttpResponseEvent → EventData
  database_query : DatabaseQueryEvent → EventData
  database_result : DatabaseResultEvent → EventData
  lock_acquire : LockAcquireEvent → EventData
  lock_release : LockReleaseEvent → EventData
  error : ErrorEvent → EventData
  custom : CustomEvent → EventData

pub record EventMetadata : Type 0 where
  pub thread_id : Text
  pub process_id : ℕ
  pub service_name : Text
  pub environment : Text
  pub tags : List (Text × Text)
  pub duration_ns : Option ℕ
  pub instance_id : Option Text
  pub distributed_span_id : Option Text
  pub upstream_span_id : Option Text

pub record Event : Type 0 where
  pub id : Text
  pub trace_id : Text
  pub parent_id : Option Text
  pub timestamp : Text
  pub kind : EventData
  pub metadata : EventMetadata
  pub causality_vector : ClockVector
  pub lock_set : List Text

pub record RacewayConfig : Type 0 where
  pub server_url : Text
  pub api_key : Option Text
  pub service_name : Option Text
  pub instance_id : Option Text
  pub environment : Option Text
  pub enabled : Option Bool
  pub batch_size : Option ℕ
  pub flush_interval : Option ℕ
  pub tags : Option (List (Text × Text))
  pub debug : Option Bool

pub record RacewayContext : Type 0 where
  pub trace_id : Text
  pub thread_id : Text
  pub parent_id : Option Text
  pub root_id : Option Text
  pub clock : ℕ
  pub span_id : Text
  pub parent_span_id : Option Text
  pub distributed : Bool
  pub clock_vector : ClockVector
  pub tracestate : Option Text
