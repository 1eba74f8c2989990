-- ===== src/Sdk/Raceway/Requests.antt =====
-- The middleware, the propagation headers, and `flush` and `stop` of the class `Raceway`
-- (sdks/typescript/src/raceway.ts).
use raceway.Prelude.{◌+◌, Bool, true, false, List, ◌++◌, ◌∷◌, Option, none, some, if◌then◌else◌}
use raceway.Text.{Text, codes, ◌==◌, slice}
use raceway.Sdk.Types.{RacewayContext}
use raceway.Sdk.Client.{RacewayClient, Request}
use raceway.Sdk.Client
use raceway.Sdk.TraceContext.Payload.{Codec}
use raceway.Sdk.TraceContext.Incoming.{
  HeaderValue, one, IncomingHeaders, find_header, parse_incoming_trace_headers,
}
use raceway.Sdk.TraceContext.Outgoing.{build_propagation_headers}
use raceway.Sdk.Raceway.Config.{Platform, Raceway}
use raceway.Sdk.Raceway.Session.{Session, Outcome, returned, threw, local_component}
use raceway.Sdk.Raceway.Capture.{spread}
use raceway.Sdk.Raceway.Track.{track_http_request}

-- req.headers['x-raceway-internal'] === 'true': a list of values is not equal to a text
is_internal : Option HeaderValue → Bool
is_internal (some (one value)) = value == codes "true"
is_internal _ = false

-- The draws are: the UUID of the thread id, the UUID of a new trace, and a span id.
unfoldable pub new_context : Platform → Codec → IncomingHeaders → Raceway → RacewayContext
new_context p codec headers r =
    let parsed =
      parse_incoming_trace_headers codec (p.uuid (r.drawn + 1)) (p.random_span (r.drawn + 2))
        headers (local_component r.config) in
    record {
      trace_id = parsed.trace_id;
      thread_id = codes "node-" ++ p.pid_text ++ b'-' ∷ slice 0 8 (p.uuid r.drawn);
      parent_id = none;
      root_id = none;
      clock = 0;
      span_id = parsed.span_id;
      parent_span_id = parsed.parent_span_id;
      distributed = parsed.distributed;
      clock_vector = parsed.clock_vector;
      tracestate = parsed.tracestate;
    }

-- What the middleware does before it calls `next()`: the session in which the handler runs. A
-- request of the SDK itself keeps the session of its caller.
unfoldable pub middleware : Platform → Codec → IncomingHeaders → Text → Text → Session → Session
unfolding is_internal new_context
middleware p codec headers method url s =
    if is_internal (find_header (codes "x-raceway-internal") headers)
    then s
    else track_http_request p method url (record {
      raceway = record (s.raceway) { drawn = s.raceway.drawn + 3 };
      ctx = some (new_context p codec headers s.raceway);
    })

propagate :
    Platform
    → Codec
    → List (Text × Text)
    → RacewayContext
    → Session
    → Outcome (List (Text × Text)) × Session
propagate p codec additional ctx s =
    let built =
      build_propagation_headers codec (p.random_span s.raceway.drawn) ctx
        (local_component s.raceway.config) in
    (
      returned (spread built.headers additional),
      record {
        raceway = record (s.raceway) { drawn = s.raceway.drawn + 1 };
        ctx = some (record ctx { clock_vector = built.clock_vector; distributed = true });
      },
    )

unfoldable pub propagation_headers :
    Platform → Codec → List (Text × Text) → Session → Outcome (List (Text × Text)) × Session
unfolding propagate
propagation_headers p codec additional s = elim s.ctx [
  | none ↦ (threw (codes "Raceway propagationHeaders() called outside of an active context"), s)
  | some ctx ↦ propagate p codec additional ctx s
]

abbrev on_client :
    (RacewayClient → RacewayClient × Option Request) → Raceway → Raceway × Option Request
on_client f r = let (c, sent) = f r.client in (record r { client = c }, sent)

unfoldable pub flush : Raceway → Raceway × Option Request
flush = on_client Client.flush

-- `this.client.stop()`, then the call of `flush` that is awaited, and the requests of the two
unfoldable pub stop : Raceway → Raceway × Option Request × Option Request
unfolding flush
stop r =
    let (stopped, first) = on_client Client.stop r in
    let (flushed, second) = flush stopped in (flushed, first, second)
