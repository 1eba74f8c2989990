-- ===== src/Web/Locks/Durations.antt =====
-- The durations that web/src/components/views/analysis/LockContentionView.tsx computes.
use raceway.Prelude.{
  ℕ, ◌≤◌, ◌≡◌, sym, subst, ap, List, [], ◌∷◌, ◌++◌, some, arith, All, All-append, Bool-cases,
  Option-cases, inl, inr, leb, leb→le,
}
use raceway.Text.{Text, ◌==◌}
use raceway.Maps.{get, set, delete, or_nil, get-set, get-delete}
use raceway.Web.Locks.{
  LockEvent, Analysis, grant, release, step, analyse, nothing_yet, hold_of, contention_of,
}
use raceway.Web.Locks.Exclusion.{holders, waiting, release-missing, release-found}
use raceway.Web.Types.{Event}
use raceway.Web.Locks.Metrics.{insert_lock, sort_locks, collect, lock_events}
use raceway.Web.Locks.Times.{
  IsFrom, AddsUp, WaitAddsUp, NotAfter, Timely, All-later, set-held, acquire-Timely,
}

module _ (e : LockEvent) (left : List (Text × LockEvent)) (st : Analysis)
    (h : Timely e.timestamp st) where
  abbrev LeftTimely : Type 0
  LeftTimely = (v : Text) (x : LockEvent) → get v left ≡ some x → NotAfter e.timestamp x

  set_active-held :
      (hs : List (Text × LockEvent))
      → ((v : Text) (x : LockEvent) → get v hs ≡ some x → NotAfter e.timestamp x)
      → (l t : Text) (x : LockEvent)
      → get t (or_nil (get l (set e.lock_id hs st.active_locks))) ≡ some x
      → NotAfter e.timestamp x
  set_active-held hs own l t x at = elim (Bool-cases (e.lock_id == l)) [
    | inl is ↦ own t x (ground (arith, is, at, get-set l e.lock_id hs st.active_locks))
    | inr other ↦ h.held l t x (ground (arith, other, at, get-set l e.lock_id hs st.active_locks))
  ]

  grant-Timely :
      (queue : List LockEvent)
      → LeftTimely
      → All (NotAfter e.timestamp) queue
      → Timely e.timestamp (grant e left queue st)
  unfolding grant
  grant-Timely [] own q = record {
    held = set_active-held left own;
    waits = h.waits;
    holds_add_up = h.holds_add_up;
    waits_add_up = h.waits_add_up;
  }
  grant-Timely (w ∷ queue) own q = record {
    held =
        set_active-held (set w.thread_id w left)
          (λ v x found. set-held e.timestamp w.thread_id v w x left own q.0 found);
    waits = λ l. elim (Bool-cases (e.lock_id == l)) [
      | inl is ↦ rw (get-set l e.lock_id queue st.pending_acquires, is) q.1
      | inr other ↦ rw (get-set l e.lock_id queue st.pending_acquires, other) (h.waits l)
    ];
    holds_add_up = h.holds_add_up;
    waits_add_up =
        All-append WaitAddsUp st.contentions (contention_of w e ∷ []) h.waits_add_up
          (omega (arith, q.0), tt);
  }

at_later : (now later : ℕ) (st : Analysis) → now ≤ later → Timely now st → Timely later st
at_later now later st le h = record {
  held = λ l t x found. omega (arith, le, h.held l t x found);
  waits = λ l. All-later now later (waiting l st) le (h.waits l);
  holds_add_up = h.holds_add_up;
  waits_add_up = h.waits_add_up;
}

release-Timely :
    (now : ℕ) (e : LockEvent) (st : Analysis)
    → Timely now st
    → now ≤ e.timestamp
    → Timely e.timestamp (release e st)
release-Timely now e st before le =
    let hs = holders e.lock_id st in
    let h = at_later now e.timestamp st le before in
    elim (Option-cases (get e.thread_id hs)) [
      | inl missing ↦ subst (Timely e.timestamp) (sym (release-missing e st missing)) h
      | inr (acquired, found) ↦
          let began = h.held e.lock_id e.thread_id acquired found in
          let noted : Analysis = record st { holds = st.holds ++ hold_of acquired e ∷ [] } in
          let noted_timely : Timely e.timestamp noted = record {
            held = h.held;
            waits = h.waits;
            holds_add_up =
                All-append AddsUp st.holds (hold_of acquired e ∷ []) h.holds_add_up
                  (ap some (omega (arith, began)), tt);
            waits_add_up = h.waits_add_up;
          } in
          subst (Timely e.timestamp) (sym (release-found e acquired st found)) (
            grant-Timely e (delete e.thread_id hs) noted noted_timely (waiting e.lock_id st)
              (λ v x kept. elim (Bool-cases (e.thread_id == v)) [
                | inl is ↦ absurd (ground (arith, is, kept, get-delete v e.thread_id hs))
                | inr other ↦
                    h.held e.lock_id v x (ground (arith, other, kept, get-delete v e.thread_id hs))
              ])
              (h.waits e.lock_id))
    ]

analyse-Timely :
    (now : ℕ) (es : List LockEvent) (st : Analysis)
    → IsFrom now es
    → Timely now st
    → (All AddsUp (analyse es st).holds) × (All WaitAddsUp (analyse es st).contentions)
unfolding analyse step
analyse-Timely now [] st from h = (h.holds_add_up, h.waits_add_up)
analyse-Timely now (e ∷ es) st from h =
    analyse-Timely e.timestamp es (step e st) from.1 (elim (Bool-cases e.is_acquire) [
      | inl is ↦ simp is (acquire-Timely now e st h from.0)
      | inr other ↦ simp other (release-Timely now e st h from.0)
    ])

-- The loop begins with nothing.
nothing-Timely : Timely 0 nothing_yet
unfolding get
nothing-Timely = record {
  held = λ l t x found. absurd (ground arith);
  waits = λ l. tt;
  holds_add_up = tt;
  waits_add_up = tt;
}

insert_lock-IsFrom :
    (now : ℕ) (e : LockEvent) (es : List LockEvent)
    → now ≤ e.timestamp
    → IsFrom now es
    → IsFrom now (insert_lock e es)
unfolding insert_lock
insert_lock-IsFrom now e [] le h = (le, tt)
insert_lock-IsFrom now e (f ∷ fs) le h = elim (Bool-cases (leb e.timestamp f.timestamp)) [
  | inl first ↦ rw (first, insert_lock) (le, (leb→le e.timestamp f.timestamp first, h.1))
  | inr second ↦
      let after : f.timestamp ≤ e.timestamp = ground (arith, second) in
      rw (second, insert_lock) (h.0, insert_lock-IsFrom f.timestamp e fs after h.1)
]

sort_locks-IsFrom : (es : List LockEvent) → IsFrom 0 (sort_locks es)
unfolding sort_locks
sort_locks-IsFrom [] = tt
sort_locks-IsFrom (e ∷ es) =
    insert_lock-IsFrom 0 e (sort_locks es) (omega arith) (sort_locks-IsFrom es)

-- Whatever the order of the events, each hold that the loop records lasts from its acquisition to
-- its release, and each wait from its begin to its end: no difference is cut off at 0.
pub lock_events-AddsUp :
    (get_time : Text → ℕ) (events : List Event)
    → let after = analyse (lock_events get_time events) nothing_yet in
      (All AddsUp after.holds) × (All WaitAddsUp after.contentions)
unfolding lock_events
lock_events-AddsUp get_time events =
    let es = lock_events get_time events in
    analyse-Timely 0 es nothing_yet (sort_locks-IsFrom (collect get_time events)) nothing-Timely
