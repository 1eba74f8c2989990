-- ===== src/Sdk/TraceContext/Outgoing.antt =====
-- `buildPropagationHeaders` of sdks/typescript/src/trace-context.ts.
use raceway.Prelude.{List, [], ◌∷◌, ◌++◌, Option, none, some, if◌then◌else◌}
use raceway.Text.{Text, codes, is_truthy}
use raceway.Json.{Json, str, arr, obj, end, field}
use raceway.Sdk.Types.{ClockVector, RacewayContext}
use raceway.Sdk.TraceContext.Clock.{Component, increment_clock_vector}
use raceway.Sdk.TraceContext.Parent.{uuid_to_trace_parent}
use raceway.Sdk.TraceContext.Payload.{Codec, clock_json, clock_version_prefix}
use raceway.Sdk.TraceContext.Incoming.{traceparent_header, tracestate_header, raceway_clock_header}

abbrev pub traceparent_version : Text
traceparent_version = codes "00"

abbrev pub default_trace_flags : Text
default_trace_flags = codes "01"

pub record PropagationHeaders : Type 0 where
  pub headers : List (Text × Text)
  pub child_span_id : Text
  pub clock_vector : ClockVector

-- the object that is written into the `raceway-clock` header
unfoldable pub clock_payload : RacewayContext → Component → Text → ClockVector → Json
clock_payload ctx options child_span_id clock_vector = obj (
    field (codes "trace_id") (str ctx.trace_id) (
      field (codes "span_id") (str child_span_id) (
        field (codes "parent_span_id") (str ctx.span_id) (
          field (codes "service") (str options.service_name) (
            field (codes "instance") (str options.instance_id)
              (field (codes "clock") (arr (clock_json clock_vector)) end))))))

unfoldable pub traceparent_text : Text → Text → Text
traceparent_text trace_id_hex child_span_id =
    traceparent_version
    ++ b'-' ∷ (trace_id_hex ++ b'-' ∷ (child_span_id ++ b'-' ∷ default_trace_flags))

-- `if (ctx.tracestate) headers[TRACESTATE_HEADER] = ctx.tracestate`
unfoldable pub tracestate_entry : Option Text → List (Text × Text)
tracestate_entry none = []
tracestate_entry (some s) = if is_truthy s then (tracestate_header, s) ∷ [] else []

-- `child_span_id` is the random value of `generateSpanId`
unfoldable pub build_propagation_headers :
    Codec → Text → RacewayContext → Component → PropagationHeaders
unfolding clock_payload traceparent_text tracestate_entry
build_propagation_headers codec child_span_id ctx options =
    let clock_vector = increment_clock_vector ctx.clock_vector options in
    let payload = clock_payload ctx options child_span_id clock_vector in
    let traceparent = traceparent_text (uuid_to_trace_parent ctx.trace_id) child_span_id in
    let clock = clock_version_prefix ++ codec.encode_base64_url (codec.stringify payload) in
    record {
      headers =
          (traceparent_header, traceparent)
          ∷ (raceway_clock_header, clock)
          ∷ tracestate_entry ctx.tracestate;
      child_span_id = child_span_id;
      clock_vector = clock_vector;
    }
