-- ===== src/Scripts/Seeding.antt =====
-- scripts/seed-database.ts: the events that the script makes and posts. The n-th call of uuidv4 is a
-- parameter, with the time before it, and so is how a time is written, and the number 99.99, which
-- the JSON values here do not have.
pub mod Traces
pub mod Run
pub mod Tests
use Prim.Native.String.{String}
use raceway.Prelude.{ℕ, ◌+◌, List, [], ◌∷◌, Option, none, some}
use raceway.Text.{Text, codes}
use raceway.Json.{Json, null, num, str, obj, Fields, end, field}

pub record Platform : Type 0 where
  pub uuid : ℕ → Text
  pub now : ℕ → ℕ
  pub to_iso_string : ℕ → Text
  pub amount : Json

pub record Metadata : Type 0 where
  pub thread_id : Text
  pub process_id : ℕ
  pub service_name : Text
  pub environment : Text
  pub tags : List (Text × Text)
  pub duration_ns : Option ℕ

pub record Event : Type 0 where
  pub id : Text
  pub trace_id : Text
  pub parent_id : Option Text
  pub timestamp : Text
  pub kind : Json
  pub metadata : Metadata
  pub causality_vector : List (Text × ℕ)
  pub lock_set : List Text

-- Object literals
abbrev fields : List (Text × Json) → Fields
fields [] = end
fields ((key, v) ∷ rest) = field key v (fields rest)

abbrev pub object : List (Text × Json) → Json
object entries = obj (fields entries)

unfoldable pub text : String → Json
unfolding codes
text s = str (codes s)

-- The literals of the kinds of events
unfoldable pub function_call :
    (function_name module_name : String) → Json → (file : String) → (line : ℕ) → Json
unfolding codes text
function_call function_name module_name args file line = object (
    (
      codes "FunctionCall",
      object (
          (codes "function_name", text function_name)
          ∷ (codes "module", text module_name)
          ∷ (codes "args", args)
          ∷ (codes "file", text file)
          ∷ (codes "line", num line)
          ∷ []),
    )
    ∷ [])

unfoldable pub state_change :
    (variable : String) → (old_value new_value : Json) → (location access_type : String) → Json
unfolding codes text
state_change variable old_value new_value location access_type = object (
    (
      codes "StateChange",
      object (
          (codes "variable", text variable)
          ∷ (codes "old_value", old_value)
          ∷ (codes "new_value", new_value)
          ∷ (codes "location", text location)
          ∷ (codes "access_type", text access_type)
          ∷ []),
    )
    ∷ [])

unfoldable pub database_query : (query database : String) → (duration_ms : ℕ) → Json
unfolding codes text
database_query query database duration_ms = object (
    (
      codes "DatabaseQuery",
      object (
          (codes "query", text query)
          ∷ (codes "database", text database)
          ∷ (codes "duration_ms", num duration_ms)
          ∷ []),
    )
    ∷ [])

unfoldable pub http_request : (method url : String) → (headers body : Json) → Json
unfolding codes text
http_request method url headers body = object (
    (
      codes "HttpRequest",
      object (
          (codes "method", text method)
          ∷ (codes "url", text url)
          ∷ (codes "headers", headers)
          ∷ (codes "body", body)
          ∷ []),
    )
    ∷ [])

unfoldable pub http_response : (status : ℕ) → (headers body : Json) → (duration_ms : ℕ) → Json
unfolding codes
http_response status headers body duration_ms = object (
    (
      codes "HttpResponse",
      object (
          (codes "status", num status)
          ∷ (codes "headers", headers)
          ∷ (codes "body", body)
          ∷ (codes "duration_ms", num duration_ms)
          ∷ []),
    )
    ∷ [])

unfoldable pub async_spawn : Text → (spawned_by : String) → Json
unfolding codes text
async_spawn task_id spawned_by = object (
    (
      codes "AsyncSpawn",
      object ((codes "task_id", str task_id) ∷ (codes "spawned_by", text spawned_by) ∷ []),
    )
    ∷ [])

-- e.metadata.duration_ns = duration
unfoldable pub lasting : ℕ → Event → Event
lasting duration e = record e { metadata = record (e.metadata) { duration_ns = some duration } }

-- The event whose id is the k-th.
unfoldable pub create_event :
    Platform → Text → Json → Option Text → (service_name thread_id : Text) → ℕ → ℕ → Event
unfolding codes
create_event platform trace_id kind parent_id service_name thread_id timestamp_offset k = record {
  id = platform.uuid k;
  trace_id = trace_id;
  parent_id = parent_id;
  timestamp = platform.to_iso_string (platform.now k + timestamp_offset);
  kind = kind;
  metadata = record {
    thread_id = thread_id;
    process_id = 1234;
    service_name = service_name;
    environment = codes "test";
    tags = [];
    duration_ns = none;
  };
  causality_vector = [];
  lock_set = [];
}
