-- ===== src/Sdk/Raceway/Handover.antt =====
-- A request from one service to the next: `propagationHeaders` of the caller, the middleware of
-- the callee (sdks/typescript/src/raceway.ts).
use raceway.Prelude.{◌+◌, ◌≡◌, refl, ap, ◌∙◌, true, List, [], ◌∷◌, ◌++◌, Option, none, some}
use raceway.Text.{Text, codes, is_truthy, ◌==◌}
use raceway.Sdk.Types.{Event, RacewayContext}
use raceway.Sdk.TraceContext.Clock.{increment_clock_vector}
use raceway.Sdk.TraceContext.Payload.{Codec}
use raceway.Sdk.TraceContext.Incoming.{IncomingHeaders, find_header}
use raceway.Sdk.TraceContext.Outgoing.{clock_payload, build_propagation_headers, tracestate_entry}
use raceway.Sdk.TraceContext.RoundTrip.{received, sent, parse_incoming-build_propagation}
use raceway.Sdk.Raceway.Config.{Platform, Raceway}
use raceway.Sdk.Raceway.Session.{Session, returned, local_component}
use raceway.Sdk.Raceway.Capture.{spread, or_null, new_event, send, build_metadata}
use raceway.Sdk.Raceway.Track.{request, perform}
use raceway.Sdk.Raceway.Performed.{session, event_of, perform-session}
use raceway.Sdk.Raceway.Requests.{middleware, new_context, propagation_headers}

-- the headers that the caller sends, and the span that they name
abbrev pub sent_headers : Platform → Codec → Raceway → RacewayContext → List (Text × Text)
sent_headers p codec r c =
    (build_propagation_headers codec (p.random_span r.drawn) c (local_component r.config)).headers

pub propagation_headers-session :
    (p : Platform) (codec : Codec) (r : Raceway) (c : RacewayContext)
    → (propagation_headers p codec [] (session r c)).0 ≡ returned (sent_headers p codec r c)
unfolding propagation_headers spread
propagation_headers-session p codec r c = refl

no_flag :
    (a b : Text) (state : Option Text)
    → find_header (codes "x-raceway-internal") (sent a b state) ≡ none
unfolding find_header codes ◌==◌ tracestate_entry
no_flag a b none = refl
no_flag a b (some []) = refl
no_flag a b (some (x ∷ s)) = refl

not_internal :
    (p : Platform) (codec : Codec) (r : Raceway) (c : RacewayContext)
    → find_header (codes "x-raceway-internal") (received (sent_headers p codec r c)) ≡ none
unfolding build_propagation_headers
not_internal p codec r c = no_flag _ _ c.tracestate

or_null-truthy : (s : Text) → is_truthy s ≡ true → or_null (some s) ≡ some s
or_null-truthy s h = rw h

-- The instance and the context with which the middleware records the request.
abbrev entered : Raceway → Raceway
entered r = record r { drawn = r.drawn + 3 }

middleware-session :
    (p : Platform) (codec : Codec) (headers : IncomingHeaders) (method url : Text) (s : Session)
    → s.raceway.config.enabled ≡ true
    → find_header (codes "x-raceway-internal") headers ≡ none
    → (middleware p codec headers method url s).raceway.captured
      ≡ s.raceway.captured
        ++ event_of p
            (entered s.raceway)
            (new_context p codec headers s.raceway)
            (request method url)
          ∷ []
unfolding middleware perform send
middleware-session p codec headers method url s on flag = rw flag (
    ap (λ t. t.raceway.captured)
      (perform-session p (entered s.raceway) (new_context p codec headers s.raceway)
        (request method url) on))

-- The first event that the called service records, when it gets the headers of `propagationHeaders`,
-- is of the caller's trace, names the caller's span as upstream and the span that the headers
-- announced as its own. Conditions: the called service's SDK is enabled; the ids are
-- not empty; and the platform's JSON and base64url give back the payload.
pub handover :
    (p q : Platform) (codec : Codec) (r : Raceway) (c : RacewayContext) (s : Session)
    (method url : Text)
    → is_truthy c.trace_id ≡ true
    → is_truthy c.span_id ≡ true
    → is_truthy (p.random_span r.drawn) ≡ true
    → let sender = local_component r.config in
      let payload =
        clock_payload c sender
          (p.random_span r.drawn)
          (increment_clock_vector c.clock_vector sender) in
      codec.parse (codec.stringify payload) ≡ some payload
      → codec.decode_base64_url (codec.encode_base64_url (codec.stringify payload))
        ≡ codec.stringify payload
      → s.raceway.config.enabled ≡ true
      → (e : Event) × ((middleware q codec
            (received (sent_headers p codec r c))
            method
            url
            s).raceway.captured
          ≡ s.raceway.captured ++ e ∷ [])
        × (e.trace_id ≡ c.trace_id)
        × (e.metadata.upstream_span_id ≡ some c.span_id)
        × (e.metadata.distributed_span_id ≡ some (p.random_span r.drawn))
unfolding new_context new_event build_metadata
handover p q codec r c s method url ht hs hn h1 h2 on =
    let headers = received (sent_headers p codec r c) in
    let parsed =
      parse_incoming-build_propagation codec c (local_component r.config)
        (local_component s.raceway.config) (p.random_span r.drawn) (q.uuid (s.raceway.drawn + 1))
        (q.random_span (s.raceway.drawn + 2)) ht hs hn h1 h2 in
    (
      event_of q (entered s.raceway) (new_context q codec headers s.raceway) (request method url),
      middleware-session q codec headers method url s on (not_internal p codec r c),
      ap (λ f. f.trace_id) parsed,
      ap (λ f. or_null f.parent_span_id) parsed ∙ or_null-truthy c.span_id hs,
      ap (λ f. or_null (some f.span_id)) parsed ∙ or_null-truthy (p.random_span r.drawn) hn,
    )
