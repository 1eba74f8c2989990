-- ===== src/Sdk/Client/Progress.antt =====
-- Delivery goes on, and what `stop` leaves on its way (sdks/typescript/src/client.ts).
use raceway.Prelude.{
  ◌<◌, ◌+◌, ◌≡◌, ◌≢◌, refl, ◌∙◌, true, false, not, ◌&&◌, List, [], ◌∷◌, ◌++◌, Option, none, some,
  arith, append-nil, if◌then◌else◌, length, length-append, leb,
}
use raceway.Sdk.Types.{Event}
use raceway.Sdk.Client.{
  RacewayClient, Request, flush, ok, settle, buffer_event, stop, is_empty, get_buffer_size,
}
use raceway.Sdk.Client.Accounting.{
  Action, flushes, answered, System, answer, step, run, Accounts, step-Accounts, held,
}

-- answer what is on its way, flush, and answer again
abbrev pub drain : List Action
drain = answered (ok true) true ∷ flushes ∷ answered (ok true) true ∷ []

step-answered-idle :
    (s : System) → Accounts s → (step (answered (ok true) true) s).client.is_flushing ≡ false
unfolding step answer settle
step-answered-idle s v = ground arith

step-answered-recorded : (s : System) → (step (answered (ok true) true) s).recorded ≡ s.recorded
unfolding step answer
step-answered-recorded s = ground arith

flush_and_answer :
    (s : System) (b : List Event)
    → s.client.event_buffer ≡ b
    → Accounts s
    → s.client.is_flushing ≡ false
    → let t = step (answered (ok true) true) (step flushes s) in
      (t.confirmed ≡ s.recorded) × (held t.client ≡ [])
unfolding step answer flush settle
flush_and_answer s [] e v idle = ground (arith, e, v.balanced, v.idle idle, append-nil s.confirmed)
flush_and_answer s (x ∷ b) e v idle = ground (arith, e, v.balanced, v.idle idle)

-- From any accounted state, two successes and one flush between them confirm all that was recorded
-- and leave nothing in the client.
pub run-drain :
    (s : System)
    → Accounts s
    → ((run drain s).confirmed ≡ s.recorded) × (held (run drain s).client ≡ [])
unfolding run
run-drain s v =
    let done =
      flush_and_answer (step (answered (ok true) true) s) _ refl
        (step-Accounts (answered (ok true) true) s v) (step-answered-idle s v) in
    (done.0 ∙ step-answered-recorded s, done.1)

-- Once `stop` has run, a second `flush` sends nothing: it does not wait for the events that are
-- still on their way.
pub flush-stop : (c : RacewayClient) → flush (stop c).0 ≡ ((stop c).0, none)
unfolding flush stop
flush-stop c = ground arith

-- If a flush begins with `stop`, all events of the buffer are on their way afterwards.
pub stop-in_flight :
    (c : RacewayClient)
    → c.is_flushing ≡ false
    → c.event_buffer ≢ []
    → ((stop c).0.in_flight ≡ c.event_buffer) × ((stop c).0.is_flushing ≡ true)
unfolding flush stop
stop-in_flight c h e = ground arith

abbrev pub sent_events : Option Request → List Event
sent_events none = []
sent_events (some r) = r.events

append-ne-nil : (xs : List Event) (e : Event) → is_empty (xs ++ e ∷ []) ≡ false
append-ne-nil [] e = refl
append-ne-nil (x ∷ xs) e = refl

-- A call of `bufferEvent` sends something exactly if no flush is on its way and the buffer reaches
-- the batch size; it then sends the whole buffer with the new event at its end.
buffer_event-sends :
    (e : Event) (c : RacewayClient)
    → sent_events (buffer_event e c).1 ≡ (
        if not c.is_flushing && leb c.batch_size (length c.event_buffer + 1)
        then c.event_buffer ++ e ∷ []
        else [])
unfolding buffer_event
buffer_event-sends e c =
    ground (arith, append-ne-nil c.event_buffer e, length-append c.event_buffer (e ∷ []))

-- When `bufferEvent` returns and no flush is on its way, fewer events than a batch are waiting.
buffer_event-bound :
    (e : Event) (c : RacewayClient)
    → (buffer_event e c).0.is_flushing ≡ false
    → get_buffer_size (buffer_event e c).0 < c.batch_size
unfolding buffer_event get_buffer_size
buffer_event-bound e c h =
    ground (arith, append-ne-nil c.event_buffer e, length-append c.event_buffer (e ∷ []))
