-- ===== src/Sdk/Raceway/Performed.antt =====
-- What one recording call does to an instance and a context
-- (sdks/typescript/src/raceway.ts).
use raceway.Prelude.{ℕ, ◌*◌, ◌≡◌, refl, ◌∙◌, true, [], Option, none, some}
use raceway.Text.{Text, codes}
use raceway.Json.{null}
use raceway.Sdk.Types.{
  EventData, function_call, state_change, http_request, http_response, lock_acquire, lock_release,
  Event, RacewayContext,
}
use raceway.Sdk.TraceContext.Clock.{increment_clock_vector}
use raceway.Sdk.Raceway.Config.{Platform, Config, Raceway}
use raceway.Sdk.Raceway.Session.{Session, local_component}
use raceway.Sdk.Raceway.Location.{parse_location}
use raceway.Sdk.Raceway.Capture.{capture_event, new_event, send}
use raceway.Sdk.Raceway.Track.{
  position, advance, advance_root, track, Call, request, response, calls, change, acquire, release,
  perform, track_http_request, track_http_response, track_function_call, track_state_change,
  track_lock_acquire, track_lock_release,
}

abbrev pub session : Raceway → RacewayContext → Session
session r c = record { raceway = r; ctx = some c }

-- What a call records.
abbrev pub kind_of : Call → EventData
kind_of (request method url) =
    http_request (record { method = method; url = url; headers = []; body = null })
kind_of (response status duration_ms) =
    http_response (record { status = status; headers = []; body = null; duration_ms = duration_ms })
kind_of (calls location name args duration_ns) = function_call (record {
  function_name = name;
  module_name = codes "unknown";
  args = args;
  file = (parse_location location).0;
  line = (parse_location location).1;
})
kind_of (change location variable old new access) = state_change (record {
  variable = variable;
  old_value = old;
  new_value = new;
  location = location;
  access_type = access;
})
kind_of (acquire location lock_id lock_type) =
    lock_acquire (record { lock_id = lock_id; lock_type = lock_type; location = location })
kind_of (release location lock_id lock_type) =
    lock_release (record { lock_id = lock_id; lock_type = lock_type; location = location })

abbrev pub duration_of : Call → Option ℕ
duration_of (response status duration_ms) = some (duration_ms * 1_000_000)
duration_of (calls location name args duration_ns) = duration_ns
duration_of _ = none

abbrev pub update_of : Call → Text → RacewayContext → RacewayContext
update_of (response status duration_ms) = advance
update_of _ = advance_root

abbrev pub ticked : Config → RacewayContext → RacewayContext
ticked config c = record c {
  clock_vector = increment_clock_vector c.clock_vector (local_component config);
}

abbrev pub event_of : Platform → Raceway → RacewayContext → Call → Event
event_of p r c call =
    new_event p r.config (some (ticked r.config c)) r.drawn (position c) (kind_of call)
      (duration_of call)

capture_event-session :
    (p : Platform) (r : Raceway) (c : RacewayContext) (kind : EventData) (d : Option ℕ)
    → r.config.enabled ≡ true
    → let e = new_event p r.config (some (ticked r.config c)) r.drawn (position c) kind d in
      capture_event p (position c) kind d (session r c)
      ≡ (e, session (send e 2 r) (ticked r.config c))
unfolding capture_event
capture_event-session p r c kind d on = simp on

track-session :
    (p : Platform) (r : Raceway) (c : RacewayContext)
    (update : Text → RacewayContext → RacewayContext) (kind : EventData) (d : Option ℕ)
    → r.config.enabled ≡ true
    → let e = new_event p r.config (some (ticked r.config c)) r.drawn (position c) kind d in
      track p update kind d (session r c) ≡ session (send e 2 r) (update e.id (ticked r.config c))
unfolding track
track-session p r c update kind d on = rw (capture_event-session p r c kind d on)

pub perform-track :
    (p : Platform) (call : Call) (s : Session)
    → perform p call s ≡ track p (update_of call) (kind_of call) (duration_of call) s
unfolding perform track_http_request track_http_response track_function_call track_state_change
    track_lock_acquire track_lock_release
perform-track p (request method url) s = refl
perform-track p (response status ms) s = refl
perform-track p (calls location name args ns) s = refl
perform-track p (change location variable old new access) s = refl
perform-track p (acquire location lock_id lock_type) s = refl
perform-track p (release location lock_id lock_type) s = refl

-- While the SDK is enabled, a call in a context sends one event and moves the context on.
pub perform-session :
    (p : Platform) (r : Raceway) (c : RacewayContext) (call : Call)
    → r.config.enabled ≡ true
    → perform p call (session r c)
      ≡ session
          (send (event_of p r c call) 2 r)
          (update_of call (event_of p r c call).id (ticked r.config c))
perform-session p r c call on = perform-track p call (session r c) ∙ track-session p r c _ _ _ on
