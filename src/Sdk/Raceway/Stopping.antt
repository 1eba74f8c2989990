-- ===== src/Sdk/Raceway/Stopping.antt =====
-- `stop` of the class `Raceway` (sdks/typescript/src/raceway.ts).
use raceway.Prelude.{◌≡◌, ◌≢◌, true, false, [], none, arith}
use raceway.Sdk.Client
use raceway.Sdk.Raceway.Config.{Raceway}
use raceway.Sdk.Raceway.Requests.{stop}

-- If events wait and no flush is on its way, `stop` puts them all on their way by its first flush,
-- and the second one, which it awaits, sends nothing: `stop` is done while they are not delivered.
pub stop-in_flight :
    (r : Raceway)
    → r.client.is_flushing ≡ false
    → r.client.event_buffer ≢ []
    → ((stop r).0.client.in_flight ≡ r.client.event_buffer)
      × ((stop r).0.client.is_flushing ≡ true)
      × ((stop r).2 ≡ none)
unfolding stop Client.stop Client.flush
stop-in_flight r idle waiting = ground arith
