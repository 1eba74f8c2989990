-- ===== src/Sdk/Client.antt =====
-- sdks/typescript/src/client.ts: the buffer of events and its delivery to the server.
-- `flush` runs to its `await fetch(…)` in one go and goes on when the answer is there, so it is two
-- functions: `flush` up to the request, and `settle` from the answer to the `finally`. In between
-- the local `eventsToSend` is the field `in_flight`. `console` output is left out.
pub mod Accounting
pub mod Delivery
pub mod Progress
pub mod Tests
use raceway.Prelude.{
  ℕ, Bool, true, false, ◌||◌, List, [], ◌∷◌, ◌++◌, Option, none, some, length, leb, if◌then◌else◌,
}
use raceway.Text.{Text, codes, ◌==◌, is_truthy}
use raceway.Sdk.Types.{Event}

pub record RacewayClient : Type 0 where
  pub server_url : Text
  pub event_buffer : List Event
  pub batch_size : ℕ
  pub flush_interval : ℕ
  pub flush_timer : Bool  -- set, or null
  pub is_flushing : Bool
  pub in_flight : List Event
  pub debug : Bool
  pub api_key : Option Text

-- The POST of `fetch`; its body is the JSON text of `events`.
pub record Request : Type 0 where
  pub url : Text
  pub headers : List (Text × Text)
  pub events : List Event

-- serverUrl.replace(/\/$/, '')
strip_slash : Text → Text
strip_slash [] = []
strip_slash (b ∷ []) = if (b ∷ []) == codes "/" then [] else b ∷ []
strip_slash (b ∷ c ∷ s) = b ∷ strip_slash (c ∷ s)

unfoldable pub new_client : Text → ℕ → ℕ → Bool → Option Text → RacewayClient
unfolding strip_slash
new_client server_url batch_size flush_interval debug api_key = record {
  server_url = strip_slash server_url;
  event_buffer = [];
  batch_size = batch_size;
  flush_interval = flush_interval;
  flush_timer = true;
  is_flushing = false;
  in_flight = [];
  debug = debug;
  api_key = api_key;
}

key_headers : Option Text → List (Text × Text)
key_headers none = []
key_headers (some key) =
    if is_truthy key
    then (codes "Authorization", codes "Bearer " ++ key) ∷ (codes "X-Raceway-Key", key) ∷ []
    else []

request : RacewayClient → Request
request c = record {
  url = c.server_url ++ codes "/events";
  headers =
      (codes "Content-Type", codes "application/json")
      ∷ (codes "X-Raceway-Internal", codes "true")
      ∷ key_headers c.api_key;
  events = c.event_buffer;
}

abbrev pub is_empty {ℓ} : {A : Type ℓ} → List A → Bool
is_empty [] = true
is_empty (x ∷ xs) = false

-- flush(), up to the `await` of the request
unfoldable pub flush : RacewayClient → RacewayClient × Option Request
unfolding request key_headers
flush c = if c.is_flushing || is_empty c.event_buffer then (c, none) else (
  record c { is_flushing = true; event_buffer = []; in_flight = c.event_buffer },
  some (request c),
)

-- What comes of the request: a status outside 200..299 with or without a readable text, a status
-- within with or without readable JSON, or a `fetch` that throws.
pub data Answer : Type 0 where
  not_ok : (text_read : Bool) → Answer
  ok : (json_read : Bool) → Answer
  failed : Answer

-- `eventsToSend` goes back to the front of the buffer.
rebuffer : RacewayClient → RacewayClient
rebuffer c = record c {
  event_buffer = c.in_flight ++ c.event_buffer;
  in_flight = [];
  is_flushing = false;
}

-- flush(), from the answer to the `finally`. `response.text()` and `response.json()` may throw
-- too, which leads to the same `catch`.
unfoldable pub settle : Answer → RacewayClient → RacewayClient
unfolding rebuffer
settle (ok true) c = record c { in_flight = []; is_flushing = false }
settle (ok false) c = rebuffer c
settle (not_ok text_read) c = rebuffer c
settle failed c = rebuffer c

unfoldable pub buffer_event : Event → RacewayClient → RacewayClient × Option Request
unfolding flush
buffer_event event c =
    let pushed = record c { event_buffer = c.event_buffer ++ event ∷ [] } in
    if leb c.batch_size (length pushed.event_buffer) then flush pushed else (pushed, none)

-- the callback of `setInterval`, which fires only while the timer is set
unfoldable pub on_timer : RacewayClient → RacewayClient × Option Request
unfolding flush
on_timer c = if c.flush_timer then flush c else (c, none)

unfoldable pub stop : RacewayClient → RacewayClient × Option Request
unfolding flush
stop c = flush (record c { flush_timer = false })

unfoldable pub get_buffer_size : RacewayClient → ℕ
get_buffer_size c = length c.event_buffer
