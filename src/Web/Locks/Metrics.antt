-- ===== src/Web/Locks/Metrics.antt =====
-- What web/src/components/views/analysis/LockContentionView.tsx shows: the lock events of a trace,
-- the locks that stay held, and the metrics of each lock.
use raceway.Prelude.{
  ℕ, ◌+◌, max, Bool, true, false, List, [], ◌∷◌, ◌++◌, none, some, map, length, leb, if◌then◌else◌,
}
use raceway.Text.{Text, codes, ◌==◌, or_else}
use raceway.Json.{Json, field_value, string_field}
use raceway.Maps.{new_set}
use raceway.Web.Types.{Event}
use raceway.Web.Locks.{LockEvent, LockHold, LockContention, analyse, nothing_yet}

-- lockData.lock_id
abbrev pub lock_id_of : Json → Text
unfolding string_field
lock_id_of lock_data = elim (string_field (codes "lock_id") lock_data) [ none ↦ [] | some id ↦ id ]

-- locks.sort((a, b) => a.timestamp - b.timestamp), which is stable
unfoldable pub insert_lock : LockEvent → List LockEvent → List LockEvent
insert_lock e [] = e ∷ []
insert_lock e (f ∷ fs) =
    let rest = insert_lock e fs in if leb e.timestamp f.timestamp then e ∷ f ∷ fs else f ∷ rest

unfoldable pub sort_locks : List LockEvent → List LockEvent
unfolding insert_lock
sort_locks [] = []
sort_locks (e ∷ es) = insert_lock e (sort_locks es)

module _ (get_time : Text → ℕ) where
  unfoldable pub lock_event : Json → Event → Bool → LockEvent
  unfolding codes string_field
  lock_event lock_data event is_acquire = record {
    lock_id = lock_id_of lock_data;
    lock_type = or_else (string_field (codes "lock_type") lock_data) (codes "Mutex");
    thread_id = event.metadata.thread_id;
    service_name = event.metadata.service_name;
    event_id = event.id;
    timestamp = get_time event.timestamp;
    location =
        or_else (string_field (codes "location") lock_data)
          (or_else event.metadata.location (codes "unknown"));
    is_acquire = is_acquire;
    event = event;
  }

  unfoldable pub lock_events_of : Event → List LockEvent
  unfolding lock_event codes field_value
  lock_events_of event = elim (field_value (codes "LockAcquire") event.kind) [
    | some lock_data ↦ lock_event lock_data event true ∷ []
    | none ↦ elim (field_value (codes "LockRelease") event.kind) [
      | some lock_data ↦ lock_event lock_data event false ∷ []
      | none ↦ []
    ]
  ]

  unfoldable pub collect : List Event → List LockEvent
  unfolding lock_events_of
  collect [] = []
  collect (event ∷ rest) = lock_events_of event ++ collect rest

  unfoldable pub lock_events : List Event → List LockEvent
  unfolding collect sort_locks
  lock_events events = sort_locks (collect events)

abbrev unreleased : Text → List (Text × LockEvent) → List LockHold
unreleased lock_id [] = []
unreleased lock_id ((thread_id, acquired) ∷ rest) =
    record {
      lock_id = lock_id;
      thread_id = thread_id;
      acquire_time = acquired.timestamp;
      release_time = none;
      duration = 0;
      acquire_event = acquired.event;
      release_event = none;
    }
    ∷ unreleased lock_id rest

unreleased_locks : List (Text × List (Text × LockEvent)) → List LockHold
unreleased_locks [] = []
unreleased_locks ((lock_id, holders) ∷ rest) = unreleased lock_id holders ++ unreleased_locks rest

-- without the averages
pub record LockMetrics : Type 0 where
  pub lock_id : Text
  pub total_acquisitions : ℕ
  pub total_hold_time : ℕ
  pub max_hold_time : ℕ
  pub contention_count : ℕ
  pub total_wait_time : ℕ
  pub max_wait_time : ℕ
  pub threads : List Text

unfoldable pub released_of : Text → List LockHold → List LockHold
released_of lock [] = []
released_of lock (h ∷ hs) =
    let rest = released_of lock hs in
    elim h.release_time [ none ↦ rest | some t ↦ if h.lock_id == lock then h ∷ rest else rest ]

unfoldable pub contentions_of : Text → List LockContention → List LockContention
contentions_of lock [] = []
contentions_of lock (c ∷ cs) =
    let rest = contentions_of lock cs in if c.lock_id == lock then c ∷ rest else rest

abbrev pub sum : List ℕ → ℕ
sum [] = 0
sum (n ∷ ns) = n + sum ns

-- Math.max(…) of numbers that are not negative, 0 for none
abbrev pub largest : List ℕ → ℕ
largest [] = 0
largest (n ∷ ns) = max n (largest ns)

unfoldable pub metrics_of : Text → List LockHold → List LockContention → LockMetrics
unfolding released_of contentions_of new_set
metrics_of lock_id holds contentions =
    let lock_holds = released_of lock_id holds in
    let lock_contentions = contentions_of lock_id contentions in
    record {
      lock_id = lock_id;
      total_acquisitions = length lock_holds;
      total_hold_time = sum (map (λ h. h.duration) lock_holds);
      max_hold_time = largest (map (λ h. h.duration) lock_holds);
      contention_count = length lock_contentions;
      total_wait_time = sum (map (λ c. c.wait_duration) lock_contentions);
      max_wait_time = largest (map (λ c. c.wait_duration) lock_contentions);
      threads = new_set (map (λ h. h.thread_id) lock_holds);
    }

pub record LockReport : Type 0 where
  pub lock_holds : List LockHold
  pub contentions : List LockContention
  pub metrics : List LockMetrics

unfoldable pub lock_report : List LockEvent → LockReport
unfolding analyse unreleased_locks metrics_of new_set
lock_report events =
    let after = analyse events nothing_yet in
    let holds = after.holds ++ unreleased_locks after.active_locks in
    record {
      lock_holds = holds;
      contentions = after.contentions;
      metrics =
          map (λ lock. metrics_of lock holds after.contentions)
            (new_set (map (λ e. e.lock_id) events));
    }
