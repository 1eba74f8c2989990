-- ===== src/Sdk/Raceway/Disabled.antt =====
-- `enabled: false` (sdks/typescript/src/raceway.ts).
use raceway.Prelude.{
  ℕ, ◌+◌, ◌≡◌, refl, ap, ◌∙◌, false, List, [], ◌∷◌, Option, none, some, arith, length,
}
use raceway.Text.{Text}
use raceway.Sdk.Types.{EventData, RacewayContext}
use raceway.Sdk.Raceway.Config.{Platform, Raceway}
use raceway.Sdk.Raceway.Capture.{capture_event, create_dummy_event}
use raceway.Sdk.Raceway.Track.{Call, response, track, perform, perform_all}
use raceway.Sdk.Raceway.Performed.{session, update_of, perform-track}

abbrev skip : Raceway → Raceway
skip r = record r { drawn = r.drawn + 3 }

track-disabled :
    (p : Platform) (r : Raceway) (c : RacewayContext)
    (update : Text → RacewayContext → RacewayContext) (kind : EventData) (d : Option ℕ)
    → r.config.enabled ≡ false
    → track p update kind d (session r c)
      ≡ session (skip r) (update (create_dummy_event p r.drawn).id c)
unfolding track capture_event
track-disabled p r c update kind d off = simp off

perform-disabled :
    (p : Platform) (r : Raceway) (c : RacewayContext) (call : Call)
    → r.config.enabled ≡ false
    → perform p call (session r c)
      ≡ session (skip r) (update_of call (create_dummy_event p r.drawn).id c)
perform-disabled p r c call off =
    perform-track p call (session r c) ∙ track-disabled p r c _ _ _ off

abbrev pub clock_in : Option RacewayContext → ℕ
clock_in none = 0
clock_in (some c) = c.clock

update-clock :
    (call : Call) (id : Text) (c : RacewayContext) → (update_of call id c).clock ≡ c.clock + 1
update-clock (response m u) id c = refl
update-clock _ id c = refl

-- A disabled SDK sends nothing: the client and the captured events stay as they are. Its calls
-- still count on the clock of the context.
perform_all-disabled :
    (p : Platform) (cs : List Call) (r : Raceway) (c : RacewayContext)
    → r.config.enabled ≡ false
    → let s = perform_all p cs (session r c) in
      (s.raceway.client ≡ r.client)
      × (s.raceway.captured ≡ r.captured)
      × (clock_in s.ctx ≡ c.clock + length cs)
unfolding perform_all
perform_all-disabled p [] r c off = (refl, refl, omega arith)
perform_all-disabled p (call ∷ cs) r c off =
    let next = update_of call (create_dummy_event p r.drawn).id c in
    let (clients, events, clocks) = perform_all-disabled p cs (skip r) next off in
    let same = ap (perform_all p cs) (perform-disabled p r c call off) in
    (
      ap (λ s. s.raceway.client) same ∙ clients,
      ap (λ s. s.raceway.captured) same ∙ events,
      ap (λ s. clock_in s.ctx) same
          ∙ clocks
          ∙ omega (arith, update-clock call (create_dummy_event p r.drawn).id c),
    )
