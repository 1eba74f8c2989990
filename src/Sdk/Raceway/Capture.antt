-- ===== src/Sdk/Raceway/Capture.antt =====
-- `captureEvent`, `buildMetadata` and `createDummyEvent` of sdks/typescript/src/raceway.ts.
use mathlib.Core.List.{foldl}
use raceway.Prelude.{ℕ, ◌+◌, not, List, [], ◌∷◌, ◌++◌, Option, none, some, if◌then◌else◌}
use raceway.Text.{Text, codes, ◌==◌, is_truthy, or_else}
use raceway.Json.{end}
use raceway.Sdk.Types.{ClockVector, EventData, custom, EventMetadata, Event, RacewayContext}
use raceway.Sdk.Client.{buffer_event}
use raceway.Sdk.TraceContext.Clock.{increment_clock_vector}
use raceway.Sdk.Raceway.Config.{Platform, Config, Raceway}
use raceway.Sdk.Raceway.Session.{Session, local_component}

-- obj[key] = value: an old key keeps its place
put : List (Text × Text) → Text × Text → List (Text × Text)
put [] (key, value) = (key, value) ∷ []
put ((k, v) ∷ fields) (key, value) =
    let rest = put fields (key, value) in if k == key then (k, value) ∷ fields else (k, v) ∷ rest

-- { ...base, ...additional }
unfoldable pub spread : List (Text × Text) → List (Text × Text) → List (Text × Text)
unfolding put
spread base additional = foldl put base additional

-- x || null
abbrev pub or_null : Option Text → Option Text
or_null none = none
or_null (some s) = if is_truthy s then some s else none

-- `ctx?.threadId`, `ctx?.spanId`, `ctx?.parentSpanId`, and instanceId if there is a context
abbrev thread_of : Option RacewayContext → Option Text
thread_of none = none
thread_of (some ctx) = some ctx.thread_id

abbrev span_of : Option RacewayContext → Option Text
span_of none = none
span_of (some ctx) = some ctx.span_id

abbrev parent_span_of : Option RacewayContext → Option Text
parent_span_of none = none
parent_span_of (some ctx) = ctx.parent_span_id

abbrev instance_in : Option RacewayContext → Text → Option Text
instance_in none instance_id = none
instance_in (some ctx) instance_id = some instance_id

unfoldable pub build_metadata : Platform → Config → Option RacewayContext → Option ℕ → EventMetadata
build_metadata p config ctx duration_ns = record {
  thread_id = or_else (thread_of ctx) (codes "node-" ++ p.pid_text);
  process_id = p.pid;
  service_name = config.service_name;
  environment = config.environment;
  tags = spread ((codes "sdk_language", codes "typescript") ∷ []) config.tags;
  duration_ns = duration_ns;
  instance_id = instance_in ctx config.instance_id;
  distributed_span_id = or_null (span_of ctx);
  upstream_span_id = or_null (parent_span_of ctx);
}

-- draws two UUIDs and a time
unfoldable pub create_dummy_event : Platform → ℕ → Event
create_dummy_event p drawn = record {
  id = p.uuid drawn;
  trace_id = p.uuid (drawn + 1);
  parent_id = none;
  timestamp = p.timestamp (drawn + 2);
  kind = custom (record { name = codes "dummy"; payload = end });
  metadata = record {
    thread_id = [];
    process_id = 0;
    service_name = [];
    environment = [];
    tags = [];
    duration_ns = none;
    instance_id = none;
    distributed_span_id = none;
    upstream_span_id = none;
  };
  causality_vector = [];
  lock_set = [];
}

-- rootId ? [[rootId, clock]] : []
abbrev pub causality_of : Option Text → ℕ → ClockVector
causality_of none clock = []
causality_of (some root) clock = if is_truthy root then (root, clock) ∷ [] else []

-- ctx.clockVector = incrementClockVector(ctx.clockVector, …)
abbrev pub tick_context : Config → Option RacewayContext → Option RacewayContext
tick_context config none = none
tick_context config (some ctx) =
    some (record ctx {
      clock_vector = increment_clock_vector ctx.clock_vector (local_component config);
    })

-- The arguments of `captureEvent` that the callers read from their context.
pub record Position : Type 0 where
  pub trace_id : Text
  pub parent_id : Option Text
  pub root_id : Option Text
  pub clock : ℕ

unfoldable pub new_event :
    Platform → Config → Option RacewayContext → ℕ → Position → EventData → Option ℕ → Event
new_event p config ctx drawn at kind duration_ns = record {
  id = p.uuid drawn;
  trace_id = at.trace_id;
  parent_id = at.parent_id;
  timestamp = p.timestamp (drawn + 1);
  kind = kind;
  metadata = build_metadata p config ctx duration_ns;
  causality_vector = causality_of at.root_id at.clock;
  lock_set = [];
}

unfoldable pub send : Event → ℕ → Raceway → Raceway
send event draws r = record r {
  client = (buffer_event event r.client).0;
  drawn = r.drawn + draws;
  captured = r.captured ++ event ∷ [];
}

unfoldable pub capture_event :
    Platform → Position → EventData → Option ℕ → Session → Event × Session
unfolding new_event send create_dummy_event
capture_event p at kind duration_ns s =
    let config = s.raceway.config in
    let ctx = tick_context config s.ctx in
    let event = new_event p config ctx s.raceway.drawn at kind duration_ns in
    if not config.enabled
    then (
      create_dummy_event p s.raceway.drawn,
      record s { raceway = record (s.raceway) { drawn = s.raceway.drawn + 3 } },
    )
    else (event, record { raceway = send event 2 s.raceway; ctx = ctx })
