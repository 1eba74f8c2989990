-- ===== src/Web/Locks.antt =====
-- web/src/components/views/analysis/LockContentionView.tsx: who holds and who waits for each lock.
-- `getTime` of a timestamp is the parameter `get_time`. The ids of locks are strings, as types.ts
-- says. The averages of the metrics, quotients of fields that are modelled, are left out.
pub mod Exclusion
pub mod Times
pub mod Durations
pub mod Waiting
pub mod Metrics
use raceway.Prelude.{
  ℕ, ◌+◌, ◌-◌, ◌≤◌, max, Bool, true, false, not, ◌&&◌, List, [], ◌∷◌, ◌++◌, Option, none, some, map,
  length, ltb, leb, if◌then◌else◌,
}
use raceway.Text.{Text, codes, ◌==◌, or_else}
use raceway.Json.{Json, Fields, field_value, string_field}
use raceway.Maps.{get, set, delete, push, or_nil, new_set, keys}
use raceway.Web.Types.{Event}

pub record LockEvent : Type 0 where
  pub lock_id : Text
  pub lock_type : Text
  pub thread_id : Text
  pub service_name : Text
  pub event_id : Text
  pub timestamp : ℕ
  pub location : Text
  pub is_acquire : Bool
  pub event : Event

pub record LockHold : Type 0 where
  pub lock_id : Text
  pub thread_id : Text
  pub acquire_time : ℕ
  pub release_time : Option ℕ
  pub duration : ℕ
  pub acquire_event : Event
  pub release_event : Option Event

pub record LockContention : Type 0 where
  pub lock_id : Text
  pub blocked_thread : Text
  pub blocking_thread : Text
  pub wait_start : ℕ
  pub wait_end : ℕ
  pub wait_duration : ℕ
  pub blocked_event : Event

-- the four variables of the loop
pub record Analysis : Type 0 where
  pub holds : List LockHold
  pub contentions : List LockContention
  pub active_locks : List (Text × List (Text × LockEvent))
  pub pending_acquires : List (Text × List LockEvent)

-- a || b for a field that may be missing
or_text : Option Text → Text → Text
or_text first second = or_else first second

-- holders.entries() of other threads
unfoldable pub other_holders : Text → List (Text × LockEvent) → List (Text × LockEvent)
other_holders thread [] = []
other_holders thread ((tid, e) ∷ rest) =
    let others = other_holders thread rest in if tid == thread then others else (tid, e) ∷ others

unfoldable pub acquire : LockEvent → Analysis → Analysis
unfolding other_holders get set push
acquire e st =
    let holders = or_nil (get e.lock_id st.active_locks) in
    if ltb 0 (length (other_holders e.thread_id holders))
    then record st { pending_acquires = push e.lock_id e st.pending_acquires }
    else record st { active_locks = set e.lock_id (set e.thread_id e holders) st.active_locks }

abbrev pub hold_of : LockEvent → LockEvent → LockHold
hold_of acquired released = record {
  lock_id = released.lock_id;
  thread_id = released.thread_id;
  acquire_time = acquired.timestamp;
  release_time = some released.timestamp;
  duration = released.timestamp - acquired.timestamp;
  acquire_event = acquired.event;
  release_event = some released.event;
}

abbrev pub contention_of : LockEvent → LockEvent → LockContention
contention_of waiting released = record {
  lock_id = released.lock_id;
  blocked_thread = waiting.thread_id;
  blocking_thread = released.thread_id;
  wait_start = waiting.timestamp;
  wait_end = released.timestamp;
  wait_duration = released.timestamp - waiting.timestamp;
  blocked_event = waiting.event;
}

-- The first waiting thread acquires; `holders` are those left.
unfoldable pub grant : LockEvent → List (Text × LockEvent) → List LockEvent → Analysis → Analysis
unfolding set
grant e holders [] st = record st { active_locks = set e.lock_id holders st.active_locks }
grant e holders (waiting ∷ pending) st = record st {
  contentions = st.contentions ++ contention_of waiting e ∷ [];
  active_locks = set e.lock_id (set waiting.thread_id waiting holders) st.active_locks;
  pending_acquires = set e.lock_id pending st.pending_acquires;
}

unfoldable pub release : LockEvent → Analysis → Analysis
unfolding get delete grant
release e st =
    let holders = or_nil (get e.lock_id st.active_locks) in
    elim (get e.thread_id holders) [
      | none ↦ st
      | some acquired ↦
          grant e (delete e.thread_id holders) (or_nil (get e.lock_id st.pending_acquires))
            (record st { holds = st.holds ++ hold_of acquired e ∷ [] })
    ]

unfoldable pub step : LockEvent → Analysis → Analysis
unfolding acquire release
step e st = if e.is_acquire then acquire e st else release e st

unfoldable pub analyse : List LockEvent → Analysis → Analysis
unfolding step
analyse [] st = st
analyse (e ∷ es) st = analyse es (step e st)

abbrev pub nothing_yet : Analysis
nothing_yet = record { holds = []; contentions = []; active_locks = []; pending_acquires = [] }
