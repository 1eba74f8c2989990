-- ===== src/Web/Audit.antt =====
-- web/src/components/views/audit/AuditTrailView.tsx: the variables of a trace and how often they are
-- read and written. Audit/Player has the steps through the accesses of one variable. The name of a
-- variable is a text, as the SDK writes it; for another value the model has the empty text.
pub mod Bounds
pub mod Counts
pub mod Player
pub mod Reached
pub mod States
pub mod Steps
pub mod Summaries
pub mod Tests
use raceway.Prelude.{
  ℕ, ◌+◌, Bool, ◌||◌, List, [], ◌∷◌, Option, none, some, map, sort_with, leb, if◌then◌else◌,
}
use raceway.Text.{Text, codes, ◌==◌, or_else}
use raceway.Json.{Json, field_value, string_field}
use raceway.Maps.{add, get, set}
use raceway.Web.Types.{Event}

pub record VariableSummary : Type 0 where
  pub name : Text
  pub read_count : ℕ
  pub write_count : ℕ
  pub race_count : ℕ
  pub threads : List Text
  pub first_access : Text
  pub last_access : Text

-- event.kind.StateChange
unfoldable pub state_change_of : Event → Option Json
unfolding field_value codes
state_change_of event = field_value (codes "StateChange") event.kind

-- stateChange.variable; for a `StateChange` that is null the source throws, and here the variable is
-- the empty text
unfoldable pub variable_of : Json → Text
unfolding string_field codes
variable_of change = elim (string_field (codes "variable") change) [ none ↦ [] | some name ↦ name ]

-- accessType === 'Read' || accessType === 'AtomicRead'
unfoldable pub is_read : Json → Bool
unfolding string_field codes
is_read change =
    let access_type = or_else (string_field (codes "access_type") change) (codes "Write") in
    access_type == codes "Read" || access_type == codes "AtomicRead"

abbrev pub new_summary : Text → Event → VariableSummary
new_summary name event = record {
  name = name;
  read_count = 0;
  write_count = 0;
  race_count = 0;
  threads = [];
  first_access = event.timestamp;
  last_access = event.timestamp;
}

unfoldable pub count_access : Event → Json → VariableSummary → VariableSummary
unfolding is_read add
count_access event change s =
    let counted =
      if is_read change
      then record s { read_count = s.read_count + 1 }
      else record s { write_count = s.write_count + 1 } in
    record counted {
      threads = add event.metadata.thread_id counted.threads;
      last_access = event.timestamp;
    }

abbrev pub SummaryMap : Type 0
SummaryMap = List (Text × VariableSummary)

abbrev pub or_new : Text → Event → Option VariableSummary → VariableSummary
or_new name event none = new_summary name event
or_new name event (some s) = s

-- the body of the loop over the events
unfoldable pub add_event : Event → SummaryMap → SummaryMap
unfolding state_change_of variable_of count_access get set
add_event event m = elim (state_change_of event) [
  | none ↦ m
  | some change ↦
      let name = variable_of change in
      set name (count_access event change (or_new name event (get name m))) m
]

unfoldable pub add_events : List Event → SummaryMap → SummaryMap
unfolding add_event
add_events [] m = m
add_events (event ∷ events) m = add_events events (add_event event m)

abbrev pub access_count : VariableSummary → ℕ
access_count s = s.read_count + s.write_count

unfoldable pub variable_summaries : List Event → List VariableSummary
unfolding add_events sort_with
variable_summaries events =
    sort_with (λ a b. leb (access_count b) (access_count a)) (map (λ e. e.1) (add_events events []))
