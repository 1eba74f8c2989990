-- ===== src/Sdk/Raceway/Track.antt =====
-- The methods of `Raceway` that record an event in the current context
-- (sdks/typescript/src/raceway.ts). `location` is what `captureLocation` returns.
use raceway.Prelude.{ℕ, ◌+◌, ◌*◌, [], ◌∷◌, List, Option, none, some}
use raceway.Text.{Text, codes}
use raceway.Json.{Json, null, Fields}
use raceway.Sdk.Types.{
  EventData, function_call, state_change, http_request, http_response, lock_acquire, lock_release,
  AccessType, RacewayContext,
}
use raceway.Sdk.Raceway.Config.{Platform}
use raceway.Sdk.Raceway.Session.{Session}
use raceway.Sdk.Raceway.Location.{parse_location}
use raceway.Sdk.Raceway.Capture.{Position, capture_event}

abbrev pub position : RacewayContext → Position
position ctx = record {
  trace_id = ctx.trace_id;
  parent_id = ctx.parent_id;
  root_id = ctx.root_id;
  clock = ctx.clock;
}

-- if (ctx.rootId === null) ctx.rootId = event.id
abbrev pub root_or : Option Text → Text → Option Text
root_or none id = some id
root_or (some root) id = some root

-- ctx.parentId = event.id; ctx.clock += 1
abbrev pub advance : Text → RacewayContext → RacewayContext
advance id ctx = record ctx { parent_id = some id; clock = ctx.clock + 1 }

-- the same, after setting the root if it is null
abbrev pub advance_root : Text → RacewayContext → RacewayContext
advance_root id ctx = record ctx {
  root_id = root_or ctx.root_id id;
  parent_id = some id;
  clock = ctx.clock + 1;
}

abbrev update_ctx : (RacewayContext → RacewayContext) → Session → Session
update_ctx f s = elim s.ctx [ none ↦ s | some ctx ↦ record s { ctx = some (f ctx) } ]

-- The body that the methods share, after the test for a context: `captureEvent` with what the
-- context says, then the update of the context, which `captureEvent` may have changed.
record_in :
    Platform
    → (Text → RacewayContext → RacewayContext)
    → EventData
    → Option ℕ
    → RacewayContext
    → Session
    → Session
record_in p update kind duration_ns ctx s =
    let (event, s') = capture_event p (position ctx) kind duration_ns s in
    update_ctx (update event.id) s'

-- if (!ctx) return
unfoldable pub track :
    Platform → (Text → RacewayContext → RacewayContext) → EventData → Option ℕ → Session → Session
unfolding record_in
track p update kind duration_ns s = elim s.ctx [
  | none ↦ s
  | some ctx ↦ record_in p update kind duration_ns ctx s
]

module _ (p : Platform) where
  unfoldable pub track_http_request : Text → Text → Session → Session
  unfolding track
  track_http_request method url =
      track p advance_root
        (http_request (record { method = method; url = url; headers = []; body = null })) none

  -- the duration in whole milliseconds
  unfoldable pub track_http_response : ℕ → ℕ → Session → Session
  unfolding track
  track_http_response status duration_ms =
      track p advance
        (http_response
          (record { status = status; headers = []; body = null; duration_ms = duration_ms }))
        (some (duration_ms * 1_000_000))

  unfoldable pub track_function_call : Text → Text → Fields → Option ℕ → Session → Session
  unfolding track
  track_function_call location function_name args duration_ns =
      track p advance_root
        (function_call (record {
          function_name = function_name;
          module_name = codes "unknown";
          args = args;
          file = (parse_location location).0;
          line = (parse_location location).1;
        }))
        duration_ns

  unfoldable pub track_state_change : Text → Text → Json → Json → AccessType → Session → Session
  unfolding track
  track_state_change location variable old_value new_value access_type =
      track p advance_root
        (state_change (record {
          variable = variable;
          old_value = old_value;
          new_value = new_value;
          location = location;
          access_type = access_type;
        }))
        none

  unfoldable pub track_lock_acquire : Text → Text → Text → Session → Session
  unfolding track
  track_lock_acquire location lock_id lock_type =
      track p advance_root
        (lock_acquire (record { lock_id = lock_id; lock_type = lock_type; location = location }))
        none

  unfoldable pub track_lock_release : Text → Text → Text → Session → Session
  unfolding track
  track_lock_release location lock_id lock_type =
      track p advance_root
        (lock_release (record { lock_id = lock_id; lock_type = lock_type; location = location }))
        none

-- One call of a method that records.
pub data Call : Type 0 where
  request : (method url : Text) → Call
  response : (status duration_ms : ℕ) → Call
  calls : (location function_name : Text) → Fields → Option ℕ → Call
  change : (location variable : Text) → Json → Json → AccessType → Call
  acquire : (location lock_id lock_type : Text) → Call
  release : (location lock_id lock_type : Text) → Call

unfoldable pub perform : Platform → Call → Session → Session
perform p (request method url) = track_http_request p method url
perform p (response status duration_ms) = track_http_response p status duration_ms
perform p (calls location name args duration_ns) =
    track_function_call p location name args duration_ns
perform p (change location variable old new access) =
    track_state_change p location variable old new access
perform p (acquire location lock_id lock_type) = track_lock_acquire p location lock_id lock_type
perform p (release location lock_id lock_type) = track_lock_release p location lock_id lock_type

unfoldable pub perform_all : Platform → List Call → Session → Session
perform_all p [] s = s
perform_all p (c ∷ rest) s = perform_all p rest (perform p c s)
