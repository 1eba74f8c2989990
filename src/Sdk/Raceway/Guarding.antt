-- ===== src/Sdk/Raceway/Guarding.antt =====
-- `withLock` records around its body (sdks/typescript/src/raceway.ts).
use raceway.Prelude.{◌≡◌, refl, ap, true, List, [], ◌∷◌, ◌++◌, Option, none, some}
use raceway.Text.{Text}
use raceway.Sdk.Types.{Event, RacewayContext}
use raceway.Sdk.Raceway.Config.{Platform, Raceway}
use raceway.Sdk.Raceway.Session.{Outcome, threw}
use raceway.Sdk.Raceway.Capture.{send}
use raceway.Sdk.Raceway.Track.{acquire, release, perform, track_lock_acquire, track_lock_release}
use raceway.Sdk.Raceway.Wrap.{
  Lock, LockMethod, Guarded, Body, call_lock, in_session, with_lock, acquiring, releasing,
}
use raceway.Sdk.Raceway.Performed.{session, event_of, perform-session, update_of, ticked}

abbrev pub guarded : Raceway → RacewayContext → List LockMethod → Guarded
guarded r c ms = record { session = session r c; lock_calls = ms }

module _ (p : Platform) (location lock_id lock_type : Text) (r : Raceway) (c : RacewayContext) where
  abbrev pub acquire_event : Event
  acquire_event = event_of p r c (acquire location lock_id lock_type)

  abbrev pub release_event : Event
  release_event = event_of p r c (release location lock_id lock_type)

  -- where the body of `withLock` starts
  abbrev pub inside : Lock → List LockMethod → Guarded
  inside l ms =
      guarded (send acquire_event 2 r)
        (update_of (acquire location lock_id lock_type) acquire_event.id (ticked r.config c))
        (ms ++ acquiring l ∷ [])

  acquire-session :
      r.config.enabled ≡ true
      → track_lock_acquire p location lock_id lock_type (session r c)
        ≡ session
            (send acquire_event 2 r)
            (update_of (acquire location lock_id lock_type) acquire_event.id (ticked r.config c))
  unfolding perform
  acquire-session on = perform-session p r c (acquire location lock_id lock_type) on

  release-session :
      r.config.enabled ≡ true
      → track_lock_release p location lock_id lock_type (session r c)
        ≡ session
            (send release_event 2 r)
            (update_of (release location lock_id lock_type) release_event.id (ticked r.config c))
  unfolding perform
  release-session on = perform-session p r c (release location lock_id lock_type) on

-- For a lock that is acquired, an SDK that is enabled before and after the body, and a body that
-- adds events and calls of the lock and takes none back: the lock was taken before the body and is
-- let go after it, and the body's events stand between one acquire event and one release event, each
-- with its own location, whether the body returns or throws. The body's outcome goes on, unless
-- letting go of the lock throws: then that error goes on instead, with the release event recorded.
pub with_lock-brackets {ℓ} :
    {A : Type ℓ} (p : Platform) (acquired_at released_at : Text) (release_error : Option Text)
    (l : Lock) (lock_id lock_type : Text) (fn : Body A) (r : Raceway) (c : RacewayContext)
    (ms : List LockMethod) (outcome : Outcome A) (r' : Raceway) (c' : RacewayContext)
    (ms' : List LockMethod) (body_events : List Event)
    → r.config.enabled ≡ true
    → fn (inside p acquired_at lock_id lock_type r c l ms)
      ≡ (outcome, guarded r' c' ((ms ++ acquiring l ∷ []) ++ ms'))
    → r'.config.enabled ≡ true
    → r'.captured
      ≡ (r.captured ++ acquire_event p acquired_at lock_id lock_type r c ∷ []) ++ body_events
    → let result =
        with_lock p acquired_at released_at none release_error l lock_id lock_type fn
          (guarded r c ms) in
      (result.0 ≡ elim release_error [ none ↦ outcome | some error ↦ threw error ])
      × (result.1.lock_calls ≡ ((ms ++ acquiring l ∷ []) ++ ms') ++ releasing l ∷ [])
      × (result.1.session.raceway.captured
          ≡ ((r.captured ++ acquire_event p acquired_at lock_id lock_type r c ∷ []) ++ body_events)
            ++ release_event p released_at lock_id lock_type r' c' ∷ [])
unfolding with_lock send
with_lock-brackets p acquired_at released_at release_error l lock_id lock_type fn r c ms outcome r'
      c' ms' body_events on run on' captured =
    let body : fn (
          in_session (track_lock_acquire p acquired_at lock_id lock_type)
            (call_lock (acquiring l) (guarded r c ms)))
        ≡ (outcome, guarded r' c' ((ms ++ acquiring l ∷ []) ++ ms')) =
      rw (acquire-session p acquired_at lock_id lock_type r c on) run in
    let closing = release_event p released_at lock_id lock_type r' c' in
    (
      ap (λ x. elim release_error [ none ↦ x.0 | some error ↦ threw error ]) body,
      rw body refl,
      rw (body, release-session p released_at lock_id lock_type r' c' on')
          (ap (λ es. es ++ closing ∷ []) captured),
    )
