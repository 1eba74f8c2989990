-- ===== src/Sdk/Client/Tests.antt =====
-- The client of sdks/typescript/src/client.ts at concrete inputs.
use raceway.Prelude.{◌≡◌, refl, true, false, List, [], ◌∷◌, ◌++◌, none}
use raceway.Text.{Text, codes}
use raceway.Json.{end}
use raceway.Sdk.Types.{Event, custom}
use raceway.Sdk.Client.{
  RacewayClient, new_client, flush, settle, ok, failed, buffer_event, on_timer,
}
use raceway.Sdk.Client.Accounting.{
  Action, records, flushes, timer, answered, System, run, step, answer, start, records_of, held,
  run-accounted, run-Accounts, start-Accounts,
}
use raceway.Sdk.Client.Delivery.{served-exactly, unread_success_doubles}
use raceway.Sdk.Client.Progress.{drain, run-drain}

abbrev pub event : Text → Event
event id = record {
  id = id;
  trace_id = codes "t";
  parent_id = none;
  timestamp = codes "2025-10-27T04:28:42.836234Z";
  kind = custom (record { name = codes "c"; payload = end });
  metadata = record {
    thread_id = codes "node-1";
    process_id = 1;
    service_name = codes "orders";
    environment = codes "test";
    tags = [];
    duration_ns = none;
    instance_id = none;
    distributed_span_id = none;
    upstream_span_id = none;
  };
  causality_vector = [];
  lock_set = [];
}

abbrev a : Event
a = event (codes "a")

abbrev b : Event
b = event (codes "b")

abbrev c : Event
c = event (codes "c")

abbrev small : RacewayClient
small = new_client (codes "http://localhost:8080/") 2 1000 false none

-- Two events fill the batch; the request fails; a third event comes before the answer.
abbrev history : List Action
history =
    records a ∷ records b ∷ records c ∷ answered failed false ∷ timer ∷ answered (ok true) true ∷ []

run-accounted_example :
    records_of history
    ≡ (run history (start small)).confirmed
      ++ ((run history (start small)).client.in_flight
          ++ (run history (start small)).client.event_buffer)
run-accounted_example = run-accounted (codes "http://localhost:8080/") 2 1000 false none history

served-exactly_example :
    records_of history
    ≡ (run history (start small)).served ++ held (run history (start small)).client
served-exactly_example =
    served-exactly (codes "http://localhost:8080/") 2 1000 false none history
      (tt, (tt, (tt, (refl, (tt, (refl, tt))))))

order_kept : (run history (start small)).served ≡ a ∷ b ∷ c ∷ []
unfolding run step answer start new_client settle buffer_event on_timer
order_kept = refl

abbrev waiting : System
waiting = run (records a ∷ []) (start small)

run-drain_example :
    ((run drain waiting).confirmed ≡ waiting.recorded) × (held (run drain waiting).client ≡ [])
run-drain_example = run-drain waiting (
    run-Accounts (records a ∷ []) (start small)
      (start-Accounts (codes "http://localhost:8080/") 2 1000 false none))

abbrev sending : System
sending = run (records a ∷ flushes ∷ records b ∷ []) (start small)

unread_success_doubles_example :
    (run (answered (ok false) true ∷ flushes ∷ answered (ok true) true ∷ []) sending).served
    ≡ (sending.served ++ sending.client.in_flight)
      ++ (sending.client.in_flight ++ sending.client.event_buffer)
unfolding run step answer start new_client buffer_event flush
unread_success_doubles_example = unread_success_doubles sending refl (λ e. cc)
