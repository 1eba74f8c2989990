-- ===== src/Sdk/TraceContext/Tests.antt =====
-- The headers of sdks/typescript/src/trace-context.ts at concrete inputs.
use raceway.Prelude.{◌+◌, ◌≡◌, refl, false, [], ◌∷◌, none, some, arith, if◌then◌else◌}
use raceway.Text.{Text, codes, ◌==◌}
use raceway.Text.Hex.{is_hex_digit, lower}
use raceway.Sdk.Types.{ClockVector, RacewayContext}
use raceway.Sdk.TraceContext.Clock.{Component, make_clock_component, increment_clock_vector}
use raceway.Sdk.TraceContext.Parent.{uuid_to_trace_parent}
use raceway.Sdk.TraceContext.Payload.{Codec}
use raceway.Sdk.TraceContext.Incoming.{parse_incoming_trace_headers, traceparent_header}
use raceway.Sdk.TraceContext.Outgoing.{build_propagation_headers, clock_payload, traceparent_text}
use raceway.Sdk.TraceContext.Vector.{value_of, component_of, value_of-increment_clock_vector}
use raceway.Sdk.TraceContext.UuidHex.{UuidParts, IsUuid, uuid_text}
use raceway.Sdk.TraceContext.RoundTrip.{
  received, next_context, w3c_context, parse_incoming-build_propagation, parse_incoming-traceparent,
}

abbrev orders : Component
orders = record { service_name = codes "orders"; instance_id = codes "1" }

abbrev billing : Component
billing = record { service_name = codes "billing"; instance_id = codes "7" }

abbrev two_counters : ClockVector
two_counters = (codes "orders#1", 4) ∷ (codes "billing#7", 2) ∷ []

value_of-increment_clock_vector_example :
    value_of (codes "billing#7") (increment_clock_vector two_counters orders) ≡ (
      if component_of orders == codes "billing#7"
      then value_of (codes "billing#7") two_counters + 1
      else value_of (codes "billing#7") two_counters)
value_of-increment_clock_vector_example =
    value_of-increment_clock_vector two_counters orders (codes "billing#7")

new_component : increment_clock_vector [] orders ≡ (codes "orders#1", 1) ∷ []
unfolding increment_clock_vector make_clock_component codes
new_component = refl

abbrev parts : UuidParts
parts = record {
  time_low = codes "0af76519";
  time_mid = codes "16cd";
  time_high = codes "43dd";
  clock_seq = codes "8448";
  node = codes "eb211c80319c";
}

parts-IsUuid : IsUuid parts
unfolding codes is_hex_digit
parts-IsUuid = record {
  low_length = refl;
  mid_length = refl;
  high_length = refl;
  seq_length = refl;
  node_length = refl;
  low_hex = ground arith;
  mid_hex = ground arith;
  high_hex = ground arith;
  seq_hex = ground arith;
  node_hex = ground arith;
}

abbrev span : Text
span = codes "b7ad6b7169203331"

abbrev ctx : RacewayContext
ctx = record {
  trace_id = uuid_text parts;
  thread_id = codes "node-1-a";
  parent_id = none;
  root_id = none;
  clock = 3;
  span_id = codes "00f067aa0ba902b7";
  parent_span_id = none;
  distributed = false;
  clock_vector = two_counters;
  tracestate = none;
}

abbrev codec : Codec
codec = record {
  stringify = λ j. codes "json";
  parse = λ t. some (clock_payload ctx orders span (increment_clock_vector two_counters orders));
  encode_base64_url = λ t. t;
  decode_base64_url = λ t. t;
}

parse_incoming-build_propagation_example :
    parse_incoming_trace_headers codec
      (codes "u")
      (codes "f")
      (received (build_propagation_headers codec span ctx orders).headers)
      billing
    ≡ next_context ctx orders billing span
unfolding codes
parse_incoming-build_propagation_example =
    parse_incoming-build_propagation codec ctx orders billing span (codes "u") (codes "f") refl refl
      refl refl refl

parse_incoming-traceparent_example :
    parse_incoming_trace_headers codec
      (codes "u")
      (codes "f")
      (received
        ((traceparent_header, traceparent_text (uuid_to_trace_parent (uuid_text parts)) span) ∷ []))
      billing
    ≡ w3c_context (uuid_text parts) span billing
unfolding codes is_hex_digit lower
parse_incoming-traceparent_example =
    parse_incoming-traceparent codec parts span (codes "u") (codes "f") billing parts-IsUuid
      (ground arith) (ground arith) refl
