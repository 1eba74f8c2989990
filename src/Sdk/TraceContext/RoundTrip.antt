-- ===== src/Sdk/TraceContext/RoundTrip.antt =====
-- What one service writes into its headers is what the next one reads.
use raceway.Prelude.{
  ℕ, suc, ◌≡◌, refl, ap, true, List, [], ◌∷◌, ◌++◌, map, Option, none, some, arith, length,
}
use raceway.Text.{Text, codes, ◌==◌, is_truthy, starts_with}
use raceway.Text.Hex.{lower, IsHexText, IsHexText-Lacks, IsHexText-all, IsLowerText, map-lower}
use raceway.Text.Split.{
  split, split-append, split-Lacks, trim, trim_end, trim_exact, trim_end-append, is_space,
}
use raceway.Sdk.Types.{ClockVector, RacewayContext}
use raceway.Sdk.TraceContext.Clock.{
  Component, has_component, make_clock_component, increment_clock_vector,
}
use raceway.Sdk.TraceContext.Parent.{
  is_hex, trace_parent_to_uuid, uuid_to_trace_parent, parse_trace_parent,
}
use raceway.Sdk.TraceContext.Payload.{
  Codec, clock_json, clock_items, field_of, parse_raceway_clock, clock_version_prefix,
}
use raceway.Sdk.TraceContext.Incoming.{
  HeaderValue, one, ParsedTraceHeaders, get_header, parse_incoming_trace_headers,
  traceparent_header, raceway_clock_header, tracestate_header, truthy_header, ensure_component,
}
use raceway.Sdk.TraceContext.Outgoing.{
  traceparent_text, tracestate_entry, clock_payload, build_propagation_headers,
}
use raceway.Sdk.TraceContext.UuidHex.{
  UuidParts, IsUuid, uuid_text, hex_text, uuid_to_trace_parent-uuid_text,
  trace_parent_to_uuid-hex_text, hex_text-IsHexText, length-hex_text,
}

is_hex_of_IsHexText : (s : Text) (n : ℕ) → IsHexText s → length s ≡ suc n → is_hex s (suc n) ≡ true
unfolding is_hex
is_hex_of_IsHexText [] n h e = absurd (omega arith)
is_hex_of_IsHexText (c ∷ s) n h e = ground (arith, IsHexText-all (c ∷ s) h, e)

trim-traceparent_text :
    (hex span : Text) → trim (traceparent_text hex span) ≡ traceparent_text hex span
unfolding traceparent_text codes is_space trim_end
trim-traceparent_text hex span = trim_exact b'0' _ refl (
    trim_end-append (b'0' ∷ b'0' ∷ []) _
      (trim_end-append (b'-' ∷ hex) _ (trim_end-append (b'-' ∷ span) _ refl refl) refl) refl)

split-traceparent_text :
    (hex span : Text)
    → IsHexText hex
    → IsHexText span
    → split b'-' (traceparent_text hex span) ≡ codes "00" ∷ hex ∷ span ∷ codes "01" ∷ []
unfolding traceparent_text codes
split-traceparent_text hex span h k = rw (
  split-append b'-' (b'0' ∷ b'0' ∷ []) (hex ++ b'-' ∷ (span ++ b'-' ∷ b'0' ∷ b'1' ∷ []))
      (omega arith),
  split-append b'-' hex (span ++ b'-' ∷ b'0' ∷ b'1' ∷ []) (IsHexText-Lacks hex h),
  split-append b'-' span (b'0' ∷ b'1' ∷ []) (IsHexText-Lacks span k),
  split-Lacks b'-' (b'0' ∷ b'1' ∷ []) (omega arith),
)

-- A traceparent header with 32 and 16 hexadecimal digits is read back.
pub parse_trace_parent-traceparent_text :
    (hex span : Text)
    → IsHexText hex
    → length hex ≡ 32
    → IsHexText span
    → IsLowerText span
    → length span ≡ 16
    → parse_trace_parent (traceparent_text hex span)
      ≡ some (record { trace_id = trace_parent_to_uuid hex; parent_span_id = span })
unfolding parse_trace_parent traceparent_text
parse_trace_parent-traceparent_text hex span h n k l m =
    rw (trim-traceparent_text hex span, split-traceparent_text hex span h k)
      (rw (is_hex_of_IsHexText hex 31 h n, is_hex_of_IsHexText span 15 k m, map-lower span l))

clock_items-clock_json : (v : ClockVector) → clock_items (clock_json v) ≡ v
unfolding clock_items clock_json
clock_items-clock_json [] = refl
clock_items-clock_json ((id, n) ∷ v) = ap (λ r. (id, n) ∷ r) (clock_items-clock_json v)

-- Node gives header values as texts.
abbrev pub received : List (Text × Text) → List (Text × HeaderValue)
received headers = map (λ h. (h.0, one h.1)) headers

abbrev pub next_context : RacewayContext → Component → Component → Text → ParsedTraceHeaders
next_context ctx sender receiver child = record {
  trace_id = ctx.trace_id;
  span_id = child;
  parent_span_id = some ctx.span_id;
  tracestate = truthy_header ctx.tracestate;
  clock_vector =
      ensure_component (make_clock_component receiver.service_name receiver.instance_id)
        (increment_clock_vector ctx.clock_vector sender);
  distributed = true;
}

parse_raceway_clock-clock_payload :
    (codec : Codec) (ctx : RacewayContext) (o : Component) (child : Text) (v : ClockVector)
    → codec.parse (codec.stringify (clock_payload ctx o child v))
      ≡ some (clock_payload ctx o child v)
    → codec.decode_base64_url
        (codec.encode_base64_url (codec.stringify (clock_payload ctx o child v)))
      ≡ codec.stringify (clock_payload ctx o child v)
    → parse_raceway_clock codec (
        clock_version_prefix
        ++ codec.encode_base64_url (codec.stringify (clock_payload ctx o child v)))
      ≡ some (record {
        trace_id = some ctx.trace_id;
        span_id = some child;
        parent_span_id = some ctx.span_id;
        clock_vector = v;
      })
unfolding parse_raceway_clock clock_payload codes starts_with field_of ◌==◌
parse_raceway_clock-clock_payload codec ctx o child v p q =
    rw (q, p) (rw (clock_items-clock_json v))

abbrev pub sent : Text → Text → Option Text → List (Text × HeaderValue)
sent traceparent clock state =
    received
      ((traceparent_header, traceparent) ∷ (raceway_clock_header, clock) ∷ tracestate_entry state)

sent-traceparent :
    (a b : Text) (state : Option Text) → get_header (sent a b state) traceparent_header ≡ some a
unfolding get_header codes lower ◌==◌
sent-traceparent a b state = refl

sent-clock :
    (a b : Text) (state : Option Text) → get_header (sent a b state) raceway_clock_header ≡ some b
unfolding get_header codes lower ◌==◌
sent-clock a b state = refl

sent-tracestate :
    (a b : Text) (state : Option Text)
    → get_header (sent a b state) tracestate_header ≡ truthy_header state
unfolding get_header codes lower ◌==◌ tracestate_entry
sent-tracestate a b none = refl
sent-tracestate a b (some []) = refl
sent-tracestate a b (some (c ∷ s)) = refl

truthy_header-clock :
    (t : Text) → truthy_header (some (clock_version_prefix ++ t)) ≡ some (clock_version_prefix ++ t)
unfolding codes
truthy_header-clock t = refl

-- The next service reads from the headers the ids of the trace and of the spans, the trace state,
-- and the clock that the sender has just incremented, to which it adds itself with 0 if it is not
-- in it. Conditions: the ids are not empty, and the platform's JSON and base64url give back the
-- payload that they encoded.
pub parse_incoming-build_propagation :
    (codec : Codec) (ctx : RacewayContext) (sender receiver : Component) (child uuid fresh : Text)
    → is_truthy ctx.trace_id ≡ true
    → is_truthy ctx.span_id ≡ true
    → is_truthy child ≡ true
    → let payload =
        clock_payload ctx sender child (increment_clock_vector ctx.clock_vector sender) in
      codec.parse (codec.stringify payload) ≡ some payload
      → codec.decode_base64_url (codec.encode_base64_url (codec.stringify payload))
        ≡ codec.stringify payload
      → parse_incoming_trace_headers codec uuid fresh
          (received (build_propagation_headers codec child ctx sender).headers)
          receiver
        ≡ next_context ctx sender receiver child
unfolding parse_incoming_trace_headers build_propagation_headers
parse_incoming-build_propagation codec ctx sender receiver child uuid fresh ht hs hc p q =
    rw
      (
        sent-traceparent,
        sent-clock,
        sent-tracestate,
        truthy_header-clock,
        parse_raceway_clock-clock_payload codec ctx sender child _ p q,
      )
      (ground (arith, ht, hs, hc))

traceparent_only :
    (a : Text) → get_header (received ((traceparent_header, a) ∷ [])) traceparent_header ≡ some a
unfolding get_header codes lower ◌==◌
traceparent_only a = refl

no_clock :
    (a : Text) → get_header (received ((traceparent_header, a) ∷ [])) raceway_clock_header ≡ none
unfolding get_header codes lower ◌==◌
no_clock a = refl

no_tracestate :
    (a : Text) → get_header (received ((traceparent_header, a) ∷ [])) tracestate_header ≡ none
unfolding get_header codes lower ◌==◌
no_tracestate a = refl

truthy_header-traceparent_text :
    (h s : Text) → truthy_header (some (traceparent_text h s)) ≡ some (traceparent_text h s)
unfolding traceparent_text codes
truthy_header-traceparent_text h s = refl

abbrev pub w3c_context : Text → Text → Component → ParsedTraceHeaders
w3c_context trace_id span receiver = record {
  trace_id = trace_id;
  span_id = span;
  parent_span_id = none;
  tracestate = none;
  clock_vector = (make_clock_component receiver.service_name receiver.instance_id, 0) ∷ [];
  distributed = true;
}

nonempty : (s : Text) → length s ≡ 16 → is_truthy s ≡ true
nonempty [] h = absurd (omega arith)
nonempty (c ∷ s) h = refl

-- A service that gets only a traceparent header, built from a UUID and a span of 16 lower-case
-- hexadecimal digits, continues that trace under that span, with a clock of its own at 0.
pub parse_incoming-traceparent :
    (codec : Codec) (p : UuidParts) (span uuid fresh : Text) (receiver : Component)
    → IsUuid p
    → IsHexText span
    → IsLowerText span
    → length span ≡ 16
    → parse_incoming_trace_headers codec uuid fresh
        (received
          ((traceparent_header, traceparent_text (uuid_to_trace_parent (uuid_text p)) span) ∷ []))
        receiver
      ≡ w3c_context (uuid_text p) span receiver
unfolding parse_incoming_trace_headers ensure_component has_component
parse_incoming-traceparent codec p span uuid fresh receiver u k l m =
    rw
      (
        traceparent_only,
        no_clock,
        no_tracestate,
        truthy_header-traceparent_text,
        uuid_to_trace_parent-uuid_text p u,
        parse_trace_parent-traceparent_text (hex_text p) span (hex_text-IsHexText p u)
            (length-hex_text p u) k l m,
        trace_parent_to_uuid-hex_text p u,
      )
      (ground (arith, nonempty span m))
