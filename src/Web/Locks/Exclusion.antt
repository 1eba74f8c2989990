-- ===== src/Web/Locks/Exclusion.antt =====
-- At any time one thread holds a lock (web/src/components/views/analysis/LockContentionView.tsx).
use raceway.Prelude.{
  ◌≤◌, ◌<◌, ◌≡◌, ap, refl, sym, subst, List, [], ◌∷◌, ◌++◌, none, some, arith, length, Bool-cases,
  Option-cases, ◌⊎◌, inl, inr, ltb,
}
use raceway.Text.{Text, eq_iff}
use raceway.Maps.{get, set, delete, or_nil, get-set, get-push}
use raceway.Web.Locks.{
  LockEvent, Analysis, other_holders, acquire, grant, release, step, analyse, nothing_yet, hold_of,
}

abbrev pub holders : Text → Analysis → List (Text × LockEvent)
holders lock st = or_nil (get lock st.active_locks)

abbrev pub waiting : Text → Analysis → List LockEvent
waiting lock st = or_nil (get lock st.pending_acquires)

-- No lock has two holders, and a thread waits only for a lock that is held.
abbrev pub IsGuarded : Analysis → Text → Type 0
IsGuarded st lock =
    (length (holders lock st) ≤ 1) × (0 < length (waiting lock st) → 0 < length (holders lock st))

module _ (thread : Text) (e : LockEvent) where
  set-one :
      (hs : List (Text × LockEvent))
      → length hs ≤ 1
      → length (other_holders thread hs) ≤ 0
      → length (set thread e hs) ≡ 1
  unfolding set other_holders
  set-one [] le none_other = refl
  set-one ((j, b) ∷ []) le none_other = ground arith
  set-one ((j, b) ∷ x ∷ hs) le none_other = absurd (omega (arith, le))

  other-holders_lem : (hs : List (Text × LockEvent)) → length (other_holders thread hs) ≤ length hs
  unfolding other_holders
  other-holders_lem [] = omega arith
  other-holders_lem ((j, b) ∷ hs) = ground (arith, other-holders_lem hs)

  delete-none :
      (hs : List (Text × LockEvent))
      → length hs ≤ 1
      → get thread hs ≡ some e
      → length (delete thread hs) ≤ 0
  unfolding get delete
  delete-none [] le found = omega arith
  delete-none ((j, b) ∷ []) le found = ground arith
  delete-none ((j, b) ∷ x ∷ hs) le found = absurd (omega (arith, le))

  set-empty : (hs : List (Text × LockEvent)) → length hs ≤ 0 → length (set thread e hs) ≡ 1
  unfolding set
  set-empty [] le = refl
  set-empty (h ∷ hs) le = absurd (omega (arith, le))

acquire-IsGuarded :
    (e : LockEvent) (st : Analysis)
    → ((l : Text) → IsGuarded st l)
    → (l : Text) → IsGuarded (acquire e st) l
unfolding acquire
acquire-IsGuarded e st h l =
    let k = e.lock_id in
    let hs = holders k st in
    elim (Bool-cases (ltb 0 (length (other_holders e.thread_id hs)))) [
      | inl held ↦ ground (
        arith,
        held,
        h l,
        h k,
        get-push l k e st.pending_acquires,
        other-holders_lem e.thread_id e hs,
        eq_iff k l,
      )
      | inr free ↦ ground (
        arith,
        free,
        h l,
        h k,
        get-set l k (set e.thread_id e hs) st.active_locks,
        set-one e.thread_id e hs,
        eq_iff k l,
      )
    ]

grant-IsGuarded :
    (e : LockEvent) (left : List (Text × LockEvent)) (queue : List LockEvent) (st : Analysis)
    → length left ≤ 0
    → waiting e.lock_id st ≡ queue
    → ((l : Text) → IsGuarded st l)
    → (l : Text) → IsGuarded (grant e left queue st) l
unfolding grant
grant-IsGuarded e left [] st gone same h l =
    ground
      (arith, ap length same, h l, get-set l e.lock_id left st.active_locks, eq_iff e.lock_id l)
grant-IsGuarded e left (w ∷ queue) st gone same h l = ground (
  arith,
  h l,
  get-set l e.lock_id (set w.thread_id w left) st.active_locks,
  get-set l e.lock_id queue st.pending_acquires,
  set-empty w.thread_id w left,
  eq_iff e.lock_id l,
)

pub release-missing :
    (e : LockEvent) (st : Analysis)
    → get e.thread_id (holders e.lock_id st) ≡ none
    → release e st ≡ st
unfolding release
release-missing e st missing = rw (missing, release) refl

pub release-found :
    (e acquired : LockEvent) (st : Analysis)
    → get e.thread_id (holders e.lock_id st) ≡ some acquired
    → release e st
      ≡ grant e
          (delete e.thread_id (holders e.lock_id st))
          (waiting e.lock_id st)
          (record st { holds = st.holds ++ hold_of acquired e ∷ [] })
unfolding release
release-found e acquired st found = rw (found, release) refl

release-IsGuarded :
    (e : LockEvent) (st : Analysis)
    → ((l : Text) → IsGuarded st l)
    → (l : Text) → IsGuarded (release e st) l
release-IsGuarded e st h l = elim (Option-cases (get e.thread_id (holders e.lock_id st))) [
  | inl missing ↦ subst (λ s. IsGuarded s l) (sym (release-missing e st missing)) (h l)
  | inr (acquired, found) ↦
      let hs = holders e.lock_id st in
      subst (λ s. IsGuarded s l) (sym (release-found e acquired st found))
        (grant-IsGuarded e (delete e.thread_id hs) (waiting e.lock_id st)
          (record st { holds = st.holds ++ hold_of acquired e ∷ [] })
          (delete-none e.thread_id acquired hs (h e.lock_id).0 found) refl h l)
]

step-IsGuarded :
    (e : LockEvent) (st : Analysis)
    → ((l : Text) → IsGuarded st l)
    → (l : Text) → IsGuarded (step e st) l
unfolding step
step-IsGuarded e st h l = elim (Bool-cases e.is_acquire) [
  | inl is ↦ simp is (acquire-IsGuarded e st h l)
  | inr other ↦ simp other (release-IsGuarded e st h l)
]

analyse-keeps :
    (es : List LockEvent) (st : Analysis)
    → ((l : Text) → IsGuarded st l)
    → (l : Text) → IsGuarded (analyse es st) l
unfolding analyse
analyse-keeps [] st h l = h l
analyse-keeps (e ∷ es) st h l = analyse-keeps es (step e st) (step-IsGuarded e st h) l

-- Nobody holds the lock and nobody waits for it, or one thread holds it.
abbrev pub IsExclusive : Analysis → Text → Type 0
IsExclusive st lock =
    ((length (holders lock st) ≡ 0) × (length (waiting lock st) ≡ 0))
    ⊎ (length (holders lock st) ≡ 1)

-- Whatever the events are, each lock is either held by one thread, or by none, and then no thread
-- waits for it.
pub analyse-IsExclusive :
    (es : List LockEvent) (lock : Text) → IsExclusive (analyse es nothing_yet) lock
unfolding get
analyse-IsExclusive es lock =
    let st = analyse es nothing_yet in
    let guarded = analyse-keeps es nothing_yet (λ l. omega arith) lock in
    elim (Bool-cases (ltb 0 (length (holders lock st)))) [
      | inl held ↦ inr (ground (arith, held, guarded.0))
      | inr free ↦ inl (ground (arith, free), ground (arith, free, guarded.1))
    ]
