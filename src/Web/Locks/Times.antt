-- ===== src/Web/Locks/Times.antt =====
-- The times that web/src/components/views/analysis/LockContentionView.tsx computes.
use raceway.Prelude.{
  ℕ, ◌+◌, ◌≤◌, ◌≡◌, sym, subst, List, [], ◌∷◌, some, arith, All, All-append, Bool-cases, inl, inr,
  ltb, length,
}
use raceway.Text.{Text, ◌==◌}
use raceway.Maps.{get, set, get-set, get-push}
use raceway.Web.Locks.{LockEvent, LockHold, LockContention, Analysis, other_holders, acquire}
use raceway.Web.Locks.Exclusion.{holders, waiting}

-- The events are in the order of time, from `now` on.
abbrev pub IsFrom : ℕ → List LockEvent → Type 0
IsFrom now [] = Unit
IsFrom now (e ∷ es) = (now ≤ e.timestamp) × IsFrom e.timestamp es

-- A hold is released, and its duration leads from its beginning to its end.
abbrev pub AddsUp : LockHold → Type 0
AddsUp h = h.release_time ≡ some (h.acquire_time + h.duration)

abbrev pub WaitAddsUp : LockContention → Type 0
WaitAddsUp c = c.wait_end ≡ c.wait_start + c.wait_duration

abbrev pub NotAfter : ℕ → LockEvent → Type 0
NotAfter now e = e.timestamp ≤ now

pub record Timely (now : ℕ) (st : Analysis) : Type 0 where
  pub held : (l t : Text) (e : LockEvent) → get t (holders l st) ≡ some e → NotAfter now e
  pub waits : (l : Text) → All (NotAfter now) (waiting l st)
  pub holds_add_up : All AddsUp st.holds
  pub waits_add_up : All WaitAddsUp st.contentions

pub All-later :
    (now later : ℕ) (es : List LockEvent)
    → now ≤ later
    → All (NotAfter now) es
    → All (NotAfter later) es
All-later now later [] le h = tt
All-later now later (e ∷ es) le h = (omega (arith, le, h.0), All-later now later es le h.1)

pub set-held :
    (now : ℕ) (t u : Text) (e found : LockEvent) (hs : List (Text × LockEvent))
    → ((v : Text) (x : LockEvent) → get v hs ≡ some x → NotAfter now x)
    → NotAfter now e
    → get u (set t e hs) ≡ some found
    → NotAfter now found
set-held now t u e found hs h le at = elim (Bool-cases (t == u)) [
  | inl is ↦
      let same : some e ≡ some found = ground (arith, is, at, get-set u t e hs) in
      ground (arith, same, le)
  | inr other ↦ h u found (ground (arith, other, at, get-set u t e hs))
]

acquire-held :
    (now : ℕ) (e : LockEvent) (st : Analysis)
    → Timely now st
    → now ≤ e.timestamp
    → (l t : Text) (x : LockEvent) → get t (holders l (acquire e st)) ≡ some x
    → NotAfter e.timestamp x
unfolding acquire
acquire-held now e st h le l t x at =
    let k = e.lock_id in
    let hs = holders k st in
    let put_in = set e.thread_id e hs in
    elim (Bool-cases (ltb 0 (length (other_holders e.thread_id hs)))) [
      | inl taken ↦ omega (arith, le, h.held l t x (ground (arith, taken, at)))
      | inr free ↦ elim (Bool-cases (k == l)) [
        | inl is ↦
            set-held e.timestamp e.thread_id t e x hs
              (λ v y found. omega (arith, le, h.held k v y found)) (omega arith)
              (ground (arith, free, is, at, get-set l k put_in st.active_locks))
        | inr other ↦ omega (
          arith,
          le,
          h.held l t x (ground (arith, free, other, at, get-set l k put_in st.active_locks)),
        )
      ]
    ]

acquire-waits :
    (now : ℕ) (e : LockEvent) (st : Analysis)
    → Timely now st
    → now ≤ e.timestamp
    → (l : Text) → All (NotAfter e.timestamp) (waiting l (acquire e st))
unfolding acquire
acquire-waits now e st h le l =
    let k = e.lock_id in
    let hs = holders k st in
    let later = λ (j : Text). All-later now e.timestamp (waiting j st) le (h.waits j) in
    elim (Bool-cases (ltb 0 (length (other_holders e.thread_id hs)))) [
      | inr free ↦ rw (free, acquire) (later l)
      | inl taken ↦ elim (Bool-cases (k == l)) [
        | inl is ↦
            rw (taken, acquire, get-push l k e st.pending_acquires, is)
              (All-append (NotAfter e.timestamp) (waiting k st) (e ∷ []) (later k)
                (omega arith, tt))
        | inr other ↦ rw (taken, acquire, get-push l k e st.pending_acquires, other) (later l)
      ]
    ]

acquire-holds : (e : LockEvent) (st : Analysis) → (acquire e st).holds ≡ st.holds
unfolding acquire
acquire-holds e st = ground arith

acquire-contentions : (e : LockEvent) (st : Analysis) → (acquire e st).contentions ≡ st.contentions
unfolding acquire
acquire-contentions e st = ground arith

pub acquire-Timely :
    (now : ℕ) (e : LockEvent) (st : Analysis)
    → Timely now st
    → now ≤ e.timestamp
    → Timely e.timestamp (acquire e st)
acquire-Timely now e st h le = record {
  held = acquire-held now e st h le;
  waits = acquire-waits now e st h le;
  holds_add_up = subst (All AddsUp) (sym (acquire-holds e st)) h.holds_add_up;
  waits_add_up = subst (All WaitAddsUp) (sym (acquire-contentions e st)) h.waits_add_up;
}
