-- ===== src/Web/Locks/Waiting.antt =====
-- The time that a thread waits, in web/src/components/views/analysis/LockContentionView.tsx.
use raceway.Prelude.{◌<◌, ◌≤◌, ◌+◌, ◌-◌, ◌≡◌, ◌∙◌, ap, refl, Bool, true, false, [], ◌∷◌, arith}
use raceway.Text.{Text, ◌==◌, eq_refl}
use raceway.Maps.{get, set, delete, push}
use raceway.Web.Locks.Exclusion.{release-found}
use raceway.Web.Locks.{
  LockEvent, Analysis, other_holders, acquire, grant, release, step, analyse, nothing_yet, hold_of,
  contention_of,
}

abbrev Move : Text → Text → Bool → LockEvent → Type 0
Move lock thread acquires e =
    (e.lock_id ≡ lock) × (e.thread_id ≡ thread) × (e.is_acquire ≡ acquires)

step-release : (e : LockEvent) (st : Analysis) → e.is_acquire ≡ false → step e st ≡ release e st
unfolding step
step-release e st k = rw (k, step) refl

module _ (lock a b : Text) (e1 e2 e3 e4 : LockEvent) (ne : (a == b) ≡ false) where
  abbrev first_held : Analysis
  first_held = record nothing_yet { active_locks = (lock, (a, e1) ∷ []) ∷ [] }

  step_first : Move lock a true e1 → step e1 nothing_yet ≡ first_held
  unfolding step acquire get set other_holders
  step_first (l, t, k) = simp (l, t, k) refl

  abbrev second_waits : Analysis
  second_waits = record first_held { pending_acquires = (lock, e2 ∷ []) ∷ [] }

  step_second : Move lock b true e2 → step e2 first_held ≡ second_waits
  unfolding step acquire get set push other_holders
  step_second (l, t, k) = simp (l, t, k, ne, eq_refl lock) refl

  abbrev second_holds : Analysis
  second_holds = record {
    holds = hold_of e1 e3 ∷ [];
    contentions = contention_of e2 e3 ∷ [];
    active_locks = (lock, (b, e2) ∷ []) ∷ [];
    pending_acquires = (lock, []) ∷ [];
  }

  step_third : Move lock b true e2 → Move lock a false e3 → step e3 second_waits ≡ second_holds
  unfolding grant get set delete
  step_third (l2, t2, k2) (l, t, k) =
      step-release e3 second_waits k
      ∙ release-found e3 e1 second_waits (simp (l, t, eq_refl lock, eq_refl a) refl)
      ∙ simp (l, t, t2, eq_refl lock, eq_refl a) refl

  abbrev both_released : Analysis
  both_released = record {
    holds = hold_of e1 e3 ∷ hold_of e2 e4 ∷ [];
    contentions = contention_of e2 e3 ∷ [];
    active_locks = (lock, []) ∷ [];
    pending_acquires = (lock, []) ∷ [];
  }

  step_fourth : Move lock b false e4 → step e4 second_holds ≡ both_released
  unfolding grant get set delete
  step_fourth (l, t, k) =
      step-release e4 second_holds k
      ∙ release-found e4 e2 second_holds (simp (l, t, eq_refl lock, eq_refl b) refl)
      ∙ simp (l, t, eq_refl lock, eq_refl b) refl

-- Where a thread asks for a lock while another holds it, and both release it in turn, the second
-- hold is said to begin when the thread asks: if it asks before the first release, the two holds
-- overlap, and its duration contains the wait, which is recorded as a contention too.
waiting_counts_as_holding :
    (lock a b : Text) (e1 e2 e3 e4 : LockEvent)
    → (a == b) ≡ false
    → Move lock a true e1
    → Move lock b true e2
    → Move lock a false e3
    → Move lock b false e4
    → e2.timestamp < e3.timestamp
    → e3.timestamp ≤ e4.timestamp
    → let after = analyse (e1 ∷ e2 ∷ e3 ∷ e4 ∷ []) nothing_yet in
      (after.holds ≡ hold_of e1 e3 ∷ hold_of e2 e4 ∷ [])
      × (after.contentions ≡ contention_of e2 e3 ∷ [])
      × ((hold_of e2 e4).acquire_time < e3.timestamp)
      × ((hold_of e2 e4).duration
          ≡ (contention_of e2 e3).wait_duration + (e4.timestamp - e3.timestamp))
unfolding analyse
waiting_counts_as_holding lock a b e1 e2 e3 e4 ne h1 h2 h3 h4 lt le =
    let last =
      ap (λ s. step e4 (step e3 (step e2 s))) (step_first lock a b e1 e2 e3 e4 ne h1)
      ∙ ap (λ s. step e4 (step e3 s)) (step_second lock a b e1 e2 e3 e4 ne h2)
      ∙ ap (step e4) (step_third lock a b e1 e2 e3 e4 ne h2 h3)
      ∙ step_fourth lock a b e1 e2 e3 e4 ne h4 in
    (ap (λ s. s.holds) last, ap (λ s. s.contentions) last, lt, omega (arith, lt, le))
