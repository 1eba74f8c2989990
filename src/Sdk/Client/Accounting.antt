-- ===== src/Sdk/Client/Accounting.antt =====
-- Every event that was buffered is confirmed, on its way, or waiting, in order and once
-- (sdks/typescript/src/client.ts).
use raceway.Prelude.{
  ℕ, ◌≡◌, refl, sym, ◌∙◌, Bool, true, false, List, [], ◌∷◌, ◌++◌, Option, arith, append-nil,
  append_assoc, if◌then◌else◌,
}
use raceway.Text.{Text}
use raceway.Sdk.Types.{Event}
use raceway.Sdk.Client.{
  RacewayClient, new_client, flush, Answer, ok, not_ok, failed, settle, buffer_event, on_timer,
  stop,
}

-- What happens to a client: calls of its methods, the timer, and the answer to the request that is
-- on its way, together with what the server did: an answer that is no success can stand for a
-- request that the server took all the same.
pub data Action : Type 0 where
  records : Event → Action
  flushes : Action
  timer : Action
  stops : Action
  answered : Answer → (taken : Bool) → Action

-- The client, and three histories that the proofs keep: all events that were given to
-- `bufferEvent`, those of requests answered by a success that was read, and those that the server
-- took.
pub record System : Type 0 where
  pub client : RacewayClient
  pub recorded : List Event
  pub confirmed : List Event
  pub served : List Event

abbrev pub is_success : Answer → Bool
is_success (ok true) = true
is_success (ok false) = false
is_success (not_ok text_read) = false
is_success failed = false

-- A success says that the server took the events.
abbrev pub was_taken : Answer → Bool → Bool
was_taken (ok json_read) taken = true
was_taken (not_ok text_read) taken = taken
was_taken failed taken = taken

unfoldable pub answer : Answer → Bool → System → System
answer a taken s = record {
  client = settle a s.client;
  recorded = s.recorded;
  confirmed = if is_success a then s.confirmed ++ s.client.in_flight else s.confirmed;
  served = if was_taken a taken then s.served ++ s.client.in_flight else s.served;
}

-- An answer comes only to a request that is on its way.
unfoldable pub step : Action → System → System
unfolding answer
step (records e) s = record s {
  client = (buffer_event e s.client).0;
  recorded = s.recorded ++ e ∷ [];
}
step flushes s = record s { client = (flush s.client).0 }
step timer s = record s { client = (on_timer s.client).0 }
step stops s = record s { client = (stop s.client).0 }
step (answered a taken) s = if s.client.is_flushing then answer a taken s else s

unfoldable pub run : List Action → System → System
unfolding step
run [] s = s
run (a ∷ actions) s = run actions (step a s)

unfoldable pub start : RacewayClient → System
start c = record { client = c; recorded = []; confirmed = []; served = [] }

abbrev pub held : RacewayClient → List Event
held c = c.in_flight ++ c.event_buffer

-- Nothing is on its way unless a flush is.
abbrev pub IsIdle : RacewayClient → Type 0
IsIdle c = c.is_flushing ≡ false → c.in_flight ≡ []

-- The buffered events are, in order, the confirmed ones, those on their way and those that wait;
-- and the server took the confirmed ones.
pub record Accounts (s : System) : Type 0 where
  pub balanced : s.recorded ≡ s.confirmed ++ held s.client
  pub idle : IsIdle s.client

flush-held : (c : RacewayClient) → IsIdle c → (held (flush c).0 ≡ held c) × IsIdle (flush c).0
unfolding flush
flush-held c h = ground (arith, append-nil c.event_buffer)

buffer_event-held :
    (e : Event) (c : RacewayClient)
    → IsIdle c
    → (held (buffer_event e c).0 ≡ held c ++ e ∷ []) × IsIdle (buffer_event e c).0
unfolding buffer_event
buffer_event-held e c h =
    ground (
      arith,
      append_assoc c.in_flight c.event_buffer (e ∷ []),
      append-nil (c.event_buffer ++ e ∷ []),
    )

settle-held :
    (a : Answer) (c : RacewayClient)
    → (if is_success a then c.in_flight else []) ++ held (settle a c) ≡ held c
unfolding settle
settle-held (ok true) c = refl
settle-held (ok false) c = refl
settle-held (not_ok t) c = refl
settle-held failed c = refl

settle-IsIdle : (a : Answer) (c : RacewayClient) → IsIdle (settle a c)
unfolding settle
settle-IsIdle (ok true) c h = refl
settle-IsIdle (ok false) c h = refl
settle-IsIdle (not_ok t) c h = refl
settle-IsIdle failed c h = refl

answer-Accounts :
    (a : Answer) (taken : Bool) (s : System) → Accounts s → Accounts (answer a taken s)
unfolding answer
answer-Accounts a taken s v = record {
  balanced = ground (
    arith,
    settle-held a s.client,
    append_assoc s.confirmed s.client.in_flight (held (settle a s.client)),
  );
  idle = settle-IsIdle a s.client;
}

pub step-Accounts : (a : Action) (s : System) → Accounts s → Accounts (step a s)
unfolding step on_timer stop
step-Accounts (records e) s v =
    ground (
      arith,
      buffer_event-held e s.client v.idle,
      append_assoc s.confirmed (held s.client) (e ∷ []),
    )
step-Accounts flushes s v = ground (arith, flush-held s.client v.idle)
step-Accounts timer s v = ground (arith, flush-held s.client v.idle)
step-Accounts stops s v =
    ground (arith, flush-held (record s.client { flush_timer = false }) v.idle)
step-Accounts (answered a taken) s v = ground (arith, answer-Accounts a taken s v)

pub run-Accounts : (actions : List Action) (s : System) → Accounts s → Accounts (run actions s)
unfolding run
run-Accounts [] s v = v
run-Accounts (a ∷ actions) s v = run-Accounts actions (step a s) (step-Accounts a s v)

-- The events that are given to `bufferEvent`.
abbrev pub records_of : List Action → List Event
records_of [] = []
records_of (records e ∷ actions) = e ∷ records_of actions
records_of (_ ∷ actions) = records_of actions

step-recorded : (a : Action) (s : System) → (step a s).recorded ≡ s.recorded ++ records_of (a ∷ [])
unfolding step answer
step-recorded (records e) s = refl
step-recorded flushes s = sym (append-nil _)
step-recorded timer s = sym (append-nil _)
step-recorded stops s = sym (append-nil _)
step-recorded (answered a taken) s = ground (arith, append-nil s.recorded)

records_of-cons :
    (a : Action) (later : List Action)
    → records_of (a ∷ later) ≡ records_of (a ∷ []) ++ records_of later
records_of-cons (records e) later = refl
records_of-cons flushes later = refl
records_of-cons timer later = refl
records_of-cons stops later = refl
records_of-cons (answered a taken) later = refl

run-recorded :
    (actions : List Action) (s : System)
    → (run actions s).recorded ≡ s.recorded ++ records_of actions
unfolding run
run-recorded [] s = sym (append-nil _)
run-recorded (a ∷ actions) s =
    rw (run-recorded actions (step a s), step-recorded a s, records_of-cons a actions)
      (append_assoc s.recorded (records_of (a ∷ [])) (records_of actions))

pub start-Accounts :
    (url : Text) (batch interval : ℕ) (debug : Bool) (key : Option Text)
    → Accounts (start (new_client url batch interval debug key))
unfolding start new_client
start-Accounts url batch interval debug key = record { balanced = refl; idle = λ h. refl }

-- Whatever is recorded, flushed, stopped and answered from a new client on, the events given to
-- `bufferEvent` are, in their order and each once, those confirmed by the server, then those on
-- their way, then those in the buffer: none is dropped, doubled or reordered.
pub run-accounted :
    (url : Text) (batch interval : ℕ) (debug : Bool) (key : Option Text) (actions : List Action)
    → let s = run actions (start (new_client url batch interval debug key)) in
      records_of actions ≡ s.confirmed ++ (s.client.in_flight ++ s.client.event_buffer)
unfolding start
run-accounted url batch interval debug key actions =
    sym (run-recorded actions (start (new_client url batch interval debug key)))
    ∙ (run-Accounts actions _ (start-Accounts url batch interval debug key)).balanced
