-- ===== src/Sdk/Raceway/Tests.antt =====
-- Runs of the class `Raceway` at concrete inputs (sdks/typescript/src/raceway.ts).
use raceway.Prelude.{ℕ, ◌≡◌, refl, Bool, true, false, List, [], ◌∷◌, ◌++◌, map, Option, none, some}
use raceway.Text.{Text, codes}
use raceway.Json.{num}
use raceway.Sdk.Types.{Event, RacewayConfig, RacewayContext, write}
use raceway.Sdk.Client
use raceway.Sdk.TraceContext.Payload.{Codec}
use raceway.Sdk.TraceContext.Clock.{increment_clock_vector}
use raceway.Sdk.TraceContext.Outgoing.{clock_payload}
use raceway.Sdk.TraceContext.RoundTrip.{received}
use raceway.Sdk.Raceway.Config.{Platform, Raceway, new_raceway}
use raceway.Sdk.Raceway.Session.{Session, Outcome, threw, local_component}
use raceway.Sdk.Raceway.Capture.{send, capture_event}
use raceway.Sdk.Raceway.Track.{
  Call, request, response, change, perform_all, perform, track_http_request, track_state_change,
  track_http_response,
}
use raceway.Sdk.Raceway.Wrap.{with_lock, with_lock_unlock, lock, unlock, Guarded, Body}
use raceway.Sdk.Raceway.Performed.{session, kind_of}
use raceway.Sdk.Raceway.Chain.{IsChain, events_of, perform_all-IsChain}
use raceway.Sdk.Raceway.Guarding.{acquire_event, release_event, inside, guarded, with_lock-brackets}
use raceway.Sdk.Raceway.Handover.{sent_headers, handover}
use raceway.Sdk.Raceway.Requests.{middleware, stop}
use raceway.Sdk.Raceway.Stopping.{stop-in_flight}

abbrev pub platform : Platform
platform = record {
  hostname = some (codes "host");
  pid = 42;
  pid_text = codes "42";
  env_instance_id = none;
  env_node_env = none;
  uuid = λ n. b'u' ∷ n ∷ [];
  random_span = λ n. b's' ∷ n ∷ [];
  timestamp = λ n. b't' ∷ n ∷ [];
}

abbrev pub options : Option Bool → RacewayConfig
options enabled = record {
  server_url = codes "http://localhost:8080";
  api_key = none;
  service_name = some (codes "orders");
  instance_id = some (codes "1");
  environment = none;
  enabled = enabled;
  batch_size = none;
  flush_interval = none;
  tags = none;
  debug = none;
}

abbrev pub orders : Raceway
orders = new_raceway platform (options none)

abbrev off : Raceway
off = new_raceway platform (options (some false))

abbrev pub ctx : RacewayContext
ctx = record {
  trace_id = codes "trace";
  thread_id = codes "node-42-a";
  parent_id = none;
  root_id = none;
  clock = 0;
  span_id = codes "span";
  parent_span_id = none;
  distributed = false;
  clock_vector = [];
  tracestate = none;
}

abbrev pub deposit : List Call
deposit =
    request (codes "POST") (codes "/deposit")
    ∷ change (codes "a.js:1") (codes "balance") (num 1) (num 2) write
    ∷ response 200 5
    ∷ []

perform_all-IsChain_example :
    ((perform_all platform deposit (session orders ctx)).raceway.captured
      ≡ orders.captured ++ events_of platform deposit orders ctx)
    × (map (λ e. e.kind) (events_of platform deposit orders ctx) ≡ map kind_of deposit)
    × IsChain ctx.trace_id ctx.root_id ctx.parent_id ctx.clock
        (events_of platform deposit orders ctx)
unfolding new_raceway
perform_all-IsChain_example = perform_all-IsChain platform deposit orders ctx refl

abbrev here : Text
here = codes "a.js:1"

abbrev account : Text
account = codes "account"

abbrev mutex : Text
mutex = codes "Mutex"

-- A body that throws at once.
abbrev failing : Body ℕ
failing g = (threw (codes "boom"), g)

abbrev locked : Guarded
locked = inside platform here account mutex orders ctx with_lock_unlock []

abbrev locked_ctx : RacewayContext
locked_ctx = record ctx {
  root_id = some (acquire_event platform here account mutex orders ctx).id;
  parent_id = some (acquire_event platform here account mutex orders ctx).id;
  clock = 1;
  clock_vector = increment_clock_vector [] (local_component orders.config);
}

abbrev there : Text
there = codes "a.js:7"

-- The body throws, and then the lock's `unlock` too.
abbrev guarded_run : Outcome ℕ × Guarded
guarded_run =
    with_lock platform here there none (some (codes "stuck")) with_lock_unlock account mutex failing
      (guarded orders ctx [])

with_lock-brackets_example :
    (guarded_run.0 ≡ threw (codes "stuck"))
    × (guarded_run.1.lock_calls ≡ lock ∷ unlock ∷ [])
    × (guarded_run.1.session.raceway.captured
        ≡ ((orders.captured ++ acquire_event platform here account mutex orders ctx ∷ []) ++ [])
          ++ release_event platform there account mutex locked.session.raceway locked_ctx ∷ [])
unfolding new_raceway send
with_lock-brackets_example =
    with_lock-brackets platform here there (some (codes "stuck")) with_lock_unlock account mutex
      failing orders ctx [] (threw (codes "boom")) locked.session.raceway locked_ctx [] [] refl refl
      refl refl

abbrev codec : Codec
codec = record {
  stringify = λ j. codes "json";
  parse = λ t. some (
      clock_payload ctx (local_component orders.config) (platform.random_span orders.drawn)
        (increment_clock_vector [] (local_component orders.config)));
  encode_base64_url = λ t. t;
  decode_base64_url = λ t. t;
}

abbrev callee : Session
callee = record { raceway = new_raceway platform (options none); ctx = none }

handover_example :
    (e : Event) × ((middleware platform codec
        (received (sent_headers platform codec orders ctx))
        (codes "GET")
        (codes "/pay")
        callee).raceway.captured
      ≡ callee.raceway.captured ++ e ∷ [])
    × (e.trace_id ≡ ctx.trace_id)
    × (e.metadata.upstream_span_id ≡ some ctx.span_id)
    × (e.metadata.distributed_span_id ≡ some (platform.random_span orders.drawn))
unfolding new_raceway codes
handover_example =
    handover platform platform codec orders ctx callee (codes "GET") (codes "/pay") refl refl refl
      refl refl refl

abbrev buffered : Raceway
buffered = (perform_all platform deposit (session orders ctx)).raceway

stop-in_flight_example :
    ((stop buffered).0.client.in_flight ≡ buffered.client.event_buffer)
    × ((stop buffered).0.client.is_flushing ≡ true)
    × ((stop buffered).2 ≡ none)
unfolding new_raceway perform_all perform track_http_request track_state_change track_http_response
    capture_event Client.buffer_event Client.new_client
stop-in_flight_example = stop-in_flight buffered refl (λ e. cc)
