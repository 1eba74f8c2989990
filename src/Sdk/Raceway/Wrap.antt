-- ===== src/Sdk/Raceway/Wrap.antt =====
-- `trackFunction`, `withLock` and their synchronous forms (sdks/typescript/src/raceway.ts). A
-- function that is passed in is a function on the session with an outcome, and a lock is seen by
-- the calls that are made of it. `await` gives other contexts a turn, not this one.
use raceway.Prelude.{ℕ, ◌-◌, List, [], ◌∷◌, ◌++◌, Option, none, some}
use raceway.Text.{Text}
use raceway.Json.{Fields}
use raceway.Sdk.Raceway.Config.{Platform}
use raceway.Sdk.Raceway.Session.{Session, Outcome, threw}
use raceway.Sdk.Raceway.Track.{track_function_call, track_lock_acquire, track_lock_release}

-- `{ lock(), unlock() }` or `{ acquire(), release() }`
pub data Lock : Type 0 where
  with_lock_unlock : Lock
  with_acquire_release : Lock

pub data LockMethod : Type 0 where
  lock unlock acquire release : LockMethod

-- the session and the calls made of the lock so far, the oldest first
pub record Guarded : Type 0 where
  pub session : Session
  pub lock_calls : List LockMethod

abbrev pub Body {ℓ} : Type ℓ → Type ℓ
Body A = Guarded → Outcome A × Guarded

abbrev pub acquiring : Lock → LockMethod
acquiring with_lock_unlock = lock
acquiring with_acquire_release = acquire

abbrev pub releasing : Lock → LockMethod
releasing with_lock_unlock = unlock
releasing with_acquire_release = release

abbrev pub call_lock : LockMethod → Guarded → Guarded
call_lock m g = record g { lock_calls = g.lock_calls ++ m ∷ [] }

abbrev pub in_session : (Session → Session) → Guarded → Guarded
in_session f g = record g { session = f g.session }

module _ {ℓ} {A : Type ℓ} (p : Platform) where
  -- the `finally` block: the release is recorded, then the lock is let go; what `unlock` or
  -- `release` throws, if it throws, takes the place of the outcome of the `try` block
  finally : Text → Option Text → Lock → Text → Text → Outcome A × Guarded → Outcome A × Guarded
  finally location release_error l lock_id lock_type (outcome, g) = (
    elim release_error [ none ↦ outcome | some error ↦ threw error ],
    call_lock (releasing l) (in_session (track_lock_release p location lock_id lock_type) g),
  )

  -- The first location is that of the acquire event, the second that of the release event: each is
  -- captured when its event is recorded. `acquire_error` is what the lock throws if it is not
  -- acquired, `release_error` what it throws when it is let go.
  unfoldable pub with_lock :
      Text → Text → Option Text → Option Text → Lock → Text → Text → Body A → Body A
  unfolding finally
  with_lock acquired_at released_at (some acquire_error) release_error l lock_id lock_type fn g =
      (threw acquire_error, call_lock (acquiring l) g)
  with_lock acquired_at released_at none release_error l lock_id lock_type fn g =
      finally released_at release_error l lock_id lock_type (
        fn (
          in_session (track_lock_acquire p acquired_at lock_id lock_type)
            (call_lock (acquiring l) g)))

  -- for `{ acquire(), release() }` only
  unfoldable pub with_lock_sync :
      Text → Text → Option Text → Option Text → Text → Text → Body A → Body A
  unfolding finally
  with_lock_sync acquired_at released_at (some acquire_error) release_error lock_id lock_type fn g =
      (threw acquire_error, call_lock acquire g)
  with_lock_sync acquired_at released_at none release_error lock_id lock_type fn g =
      finally released_at release_error with_acquire_release lock_id lock_type
        (fn (in_session (track_lock_acquire p acquired_at lock_id lock_type) (call_lock acquire g)))

  -- `start` and `end_time` are the readings of `process.hrtime.bigint()`, in nanoseconds; both the
  -- value and the exception go on after the call has been recorded
  unfoldable pub track_function :
      Text → ℕ → ℕ → Text → Fields → (Session → Outcome A × Session) → Session → Outcome A × Session
  track_function location start end_time function_name args fn s =
      let (outcome, s') = fn s in
      (outcome, track_function_call p location function_name args (some (end_time - start)) s')

  unfoldable pub track_function_sync :
      Text → ℕ → ℕ → Text → Fields → (Session → Outcome A × Session) → Session → Outcome A × Session
  track_function_sync location start end_time function_name args fn s =
      let (outcome, s') = fn s in
      (outcome, track_function_call p location function_name args (some (end_time - start)) s')
