-- ===== src/Sdk/TraceContext/Incoming.antt =====
-- `parseIncomingTraceHeaders` of sdks/typescript/src/trace-context.ts.
use raceway.Prelude.{Bool, true, false, List, [], ◌∷◌, ◌++◌, map, Option, none, some, if◌then◌else◌}
use raceway.Text.{Text, codes, ◌==◌, is_truthy, or_else}
use raceway.Text.Hex.{lower}
use raceway.Sdk.Types.{ClockVector}
use raceway.Sdk.TraceContext.Clock.{Component, make_clock_component, has_component}
use raceway.Sdk.TraceContext.Parent.{ParsedTraceParent, parse_trace_parent}
use raceway.Sdk.TraceContext.Payload.{Codec, ClockPayload, parse_raceway_clock}

abbrev pub traceparent_header : Text
traceparent_header = codes "traceparent"

abbrev pub tracestate_header : Text
tracestate_header = codes "tracestate"

abbrev pub raceway_clock_header : Text
raceway_clock_header = codes "raceway-clock"

-- string | string[]; a header that is undefined is not in the list
pub data HeaderValue : Type 0 where
  one : Text → HeaderValue
  many : List Text → HeaderValue

abbrev pub IncomingHeaders : Type 0
IncomingHeaders = List (Text × HeaderValue)

pub record ParsedTraceHeaders : Type 0 where
  pub trace_id : Text
  pub span_id : Text
  pub parent_span_id : Option Text
  pub tracestate : Option Text
  pub clock_vector : ClockVector
  pub distributed : Bool

header_text : Option HeaderValue → Option Text
header_text none = none
header_text (some (one value)) = some value
header_text (some (many [])) = none
header_text (some (many (value ∷ values))) = some value

unfoldable pub find_header : Text → IncomingHeaders → Option HeaderValue
find_header name [] = none
find_header name ((key, value) ∷ headers) =
    if key == name then some value else find_header name headers

unfoldable pub get_header : IncomingHeaders → Text → Option Text
unfolding header_text find_header
get_header headers name = header_text (find_header (map lower name) headers)

-- if (parsed.x) x = parsed.x
abbrev prefer : Option Text → Option Text → Option Text
prefer none old = old
prefer (some s) old = if is_truthy s then some s else old

-- `traceId`, `spanId`, `parentSpanId`, `clockVector` and `distributed` while the headers are read
pub record Found : Type 0 where
  pub trace_id : Text
  pub span_id : Option Text
  pub parent_span_id : Option Text
  pub clock_vector : ClockVector
  pub distributed : Bool

abbrev nothing_found : Text → Found
nothing_found uuid = record {
  trace_id = uuid;
  span_id = none;
  parent_span_id = none;
  clock_vector = [];
  distributed = false;
}

-- a header that is missing or empty is not read
abbrev pub truthy_header : Option Text → Option Text
truthy_header none = none
truthy_header (some s) = if is_truthy s then some s else none

with_traceparent : Option ParsedTraceParent → Found → Found
with_traceparent none f = f
with_traceparent (some parsed) f = record f {
  trace_id = parsed.trace_id;
  span_id = some parsed.parent_span_id;
  distributed = true;
}

with_clock : Option ClockPayload → Found → Found
with_clock none f = f
with_clock (some parsed) f = record {
  trace_id = or_else parsed.trace_id f.trace_id;
  span_id = prefer parsed.span_id f.span_id;
  parent_span_id = prefer parsed.parent_span_id f.parent_span_id;
  clock_vector = parsed.clock_vector;
  distributed = true;
}

infixl 20 ◌and_then◌
abbrev ◌and_then◌ {ℓ κ} : {A : Type ℓ} {B : Type κ} → Option A → (A → Option B) → Option B
none and_then f = none
some a and_then f = f a

unfoldable pub ensure_component : Text → ClockVector → ClockVector
ensure_component component vector =
    if has_component component vector then vector else vector ++ (component, 0) ∷ []

module _ (codec : Codec) where
  -- `uuid` and `new_span_id` are the random values that a call draws
  unfoldable pub parse_incoming_trace_headers :
      Text → Text → IncomingHeaders → Component → ParsedTraceHeaders
  unfolding with_traceparent with_clock ensure_component
  parse_incoming_trace_headers uuid new_span_id headers defaults =
      let traceparent = truthy_header (get_header headers traceparent_header) in
      let clock = truthy_header (get_header headers raceway_clock_header) in
      let found =
        with_clock (clock and_then parse_raceway_clock codec)
          (with_traceparent (traceparent and_then parse_trace_parent) (nothing_found uuid)) in
      record {
        trace_id = found.trace_id;
        span_id = or_else found.span_id new_span_id;
        parent_span_id = found.parent_span_id;
        tracestate = get_header headers tracestate_header;
        clock_vector =
            ensure_component (make_clock_component defaults.service_name defaults.instance_id)
              found.clock_vector;
        distributed = found.distributed;
      }
