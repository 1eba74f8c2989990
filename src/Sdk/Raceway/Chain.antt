-- ===== src/Sdk/Raceway/Chain.antt =====
-- The events of one request form a chain (sdks/typescript/src/raceway.ts).
use raceway.Prelude.{
  ℕ, ◌+◌, ◌≡◌, refl, sym, ap, ◌∙◌, Bool, true, false, List, [], ◌∷◌, ◌++◌, Option, none, some,
  arith, length, map, append_assoc, append-nil, if◌then◌else◌,
}
use raceway.Text.{Text}
use raceway.Sdk.Types.{EventData, http_response, Event, RacewayContext}
use raceway.Sdk.TraceContext.Vector.{value_of, component_of, value_of-increment_clock_vector}
use raceway.Text.{eq_refl}
use raceway.Sdk.Raceway.Config.{Platform, Config, Raceway}
use raceway.Sdk.Raceway.Session.{local_component}
use raceway.Sdk.Raceway.Capture.{causality_of, new_event, send}
use raceway.Sdk.Raceway.Track.{
  root_or, Call, request, response, calls, change, acquire, release, perform_all,
}
use raceway.Sdk.Raceway.Performed.{session, kind_of, update_of, ticked, event_of, perform-session}

abbrev pub is_response : EventData → Bool
is_response (http_response e) = true
is_response _ = false

-- A response does not become the root.
abbrev pub root_after : Option Text → Event → Option Text
root_after root e = if is_response e.kind then root else root_or root e.id

-- Events of one trace, each the child of the one before, whose causality vectors count up from
-- `clock` under the root.
abbrev pub IsChain : Text → Option Text → Option Text → ℕ → List Event → Type 0
IsChain trace root parent clock [] = Unit
IsChain trace root parent clock (e ∷ es) =
    (e.trace_id ≡ trace)
    × (e.parent_id ≡ parent)
    × (e.causality_vector ≡ causality_of root clock)
    × IsChain trace (root_after root e) (some e.id) (clock + 1) es

-- The events that the calls record, one after the other.
pub events_of : Platform → List Call → Raceway → RacewayContext → List Event
events_of p [] r c = []
events_of p (call ∷ rest) r c =
    let e = event_of p r c call in
    e ∷ events_of p rest (send e 2 r) (update_of call e.id (ticked r.config c))

module _ (p : Platform) where
  perform_all-captured :
      (cs : List Call) (r : Raceway) (c : RacewayContext)
      → r.config.enabled ≡ true
      → (perform_all p cs (session r c)).raceway.captured ≡ r.captured ++ events_of p cs r c
  unfolding perform_all events_of send
  perform_all-captured [] r c on = sym (append-nil r.captured)
  perform_all-captured (call ∷ cs) r c on =
      ap (λ s. (perform_all p cs s).raceway.captured) (perform-session p r c call on)
      ∙ perform_all-captured cs _ _ on
      ∙ append_assoc r.captured (event_of p r c call ∷ []) _

  events_of-IsChain :
      (cs : List Call) (r : Raceway) (c : RacewayContext)
      → IsChain c.trace_id c.root_id c.parent_id c.clock (events_of p cs r c)
  unfolding events_of new_event
  events_of-IsChain [] r c = tt
  events_of-IsChain (request m u ∷ cs) r c = (refl, refl, refl, events_of-IsChain cs _ _)
  events_of-IsChain (response m u ∷ cs) r c = (refl, refl, refl, events_of-IsChain cs _ _)
  events_of-IsChain (calls l n a d ∷ cs) r c = (refl, refl, refl, events_of-IsChain cs _ _)
  events_of-IsChain (change l v o n a ∷ cs) r c = (refl, refl, refl, events_of-IsChain cs _ _)
  events_of-IsChain (acquire l i t ∷ cs) r c = (refl, refl, refl, events_of-IsChain cs _ _)
  events_of-IsChain (release l i t ∷ cs) r c = (refl, refl, refl, events_of-IsChain cs _ _)

  events_of-kinds :
      (cs : List Call) (r : Raceway) (c : RacewayContext)
      → map (λ e. e.kind) (events_of p cs r c) ≡ map kind_of cs
  unfolding events_of new_event
  events_of-kinds [] r c = refl
  events_of-kinds (call ∷ cs) r c = ap (λ ks. kind_of call ∷ ks) (events_of-kinds cs _ _)

-- While the SDK is enabled, the calls made in one context record one event each, of their kinds and
-- in their order. The events are of the context's trace; each is the child of the one before, the
-- first of the context's parent; and the causality vectors count up by one from the context's
-- clock under the root, which is the first event that is no response if there was none.
pub perform_all-IsChain :
    (p : Platform) (cs : List Call) (r : Raceway) (c : RacewayContext)
    → r.config.enabled ≡ true
    → let es = events_of p cs r c in
      ((perform_all p cs (session r c)).raceway.captured ≡ r.captured ++ es)
      × (map (λ e. e.kind) es ≡ map kind_of cs)
      × IsChain c.trace_id c.root_id c.parent_id c.clock es
perform_all-IsChain p cs r c on =
    (perform_all-captured p cs r c on, events_of-kinds p cs r c, events_of-IsChain p cs r c)

abbrev pub clock_of : Option RacewayContext → ℕ
clock_of none = 0
clock_of (some c) = c.clock

abbrev own_count : Config → Option RacewayContext → ℕ
own_count config none = 0
own_count config (some c) = value_of (component_of (local_component config)) c.clock_vector

ticked-count :
    (config : Config) (c : RacewayContext)
    → own_count config (some (ticked config c)) ≡ own_count config (some c) + 1
ticked-count config c =
    let o = local_component config in
    ground (
      arith,
      value_of-increment_clock_vector c.clock_vector o (component_of o),
      eq_refl (component_of o),
    )

update-counts :
    (config : Config) (call : Call) (id : Text) (c : RacewayContext)
    → ((update_of call id (ticked config c)).clock ≡ c.clock + 1)
      × (own_count config (some (update_of call id (ticked config c)))
          ≡ own_count config (some c) + 1)
update-counts config (request m u) id c = (refl, ticked-count config c)
update-counts config (response m u) id c = (refl, ticked-count config c)
update-counts config (calls l n a d) id c = (refl, ticked-count config c)
update-counts config (change l v o n a) id c = (refl, ticked-count config c)
update-counts config (acquire l i t) id c = (refl, ticked-count config c)
update-counts config (release l i t) id c = (refl, ticked-count config c)

-- While the SDK is enabled, each call made in a context counts one further on the context's clock
-- and on the entry of this instance in its vector clock.
perform_all-counts :
    (p : Platform) (cs : List Call) (r : Raceway) (c : RacewayContext)
    → r.config.enabled ≡ true
    → let after = (perform_all p cs (session r c)).ctx in
      (clock_of after ≡ c.clock + length cs)
      × (own_count r.config after ≡ own_count r.config (some c) + length cs)
unfolding perform_all send
perform_all-counts p [] r c on = (omega arith, omega arith)
perform_all-counts p (call ∷ cs) r c on =
    let e = event_of p r c call in
    let next = update_of call e.id (ticked r.config c) in
    let rest = perform_all-counts p cs (send e 2 r) next on in
    let counts = update-counts r.config call e.id c in
    let same = ap (λ s. (perform_all p cs s).ctx) (perform-session p r c call on) in
    (
      ap clock_of same ∙ rest.0 ∙ omega (arith, counts.0),
      ap (own_count r.config) same ∙ rest.1 ∙ omega (arith, counts.1),
    )
