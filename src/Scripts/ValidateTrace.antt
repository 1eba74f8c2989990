-- ===== src/Scripts/ValidateTrace.antt =====
-- `validateTrace` of scripts/validate-trace.ts: a trace that the server answers with is compared
-- with what the seeding script noted. The messages of the result are constructors with the numbers
-- that the texts show.
pub mod Verdict
pub mod Tests
use raceway.Prelude.{
  ℕ, suc, Bool, true, false, not, ◌&&◌, List, [], ◌∷◌, ◌++◌, Option, none, some, nat_eq,
  if◌then◌else◌,
}
use raceway.Text.{Text, codes, ◌==◌, is_truthy}
use raceway.Json.{
  Json, null, bool, num, str, arr, obj, Items, nil, cons, Fields, field_value, truthy, member,
}

pub record TraceMetadata : Type 0 where
  pub trace_id : Text
  pub name : Text
  pub expected_races : ℕ
  pub expected_anomalies : ℕ
  pub event_count : ℕ

pub record SeedMetadata : Type 0 where
  pub seeded_at : Text
  pub traces : List TraceMetadata

pub data Failure : Type 0 where
  unknown_trace : Text → Failure
  api_failure missing_data missing_events : Failure
  event_count_mismatch : (expected actual : ℕ) → Failure
  race_count_mismatch : (expected : ℕ) (actual : Json) → Failure
  anomaly_count_mismatch : (expected actual : ℕ) → Failure

pub data Warning : Type 0 where
  missing_analysis missing_anomalies : Warning

pub record ValidationResult : Type 0 where
  pub passed : Bool
  pub failures : List Failure
  pub warnings : List Warning

abbrev pub fail : Failure → ValidationResult → ValidationResult
fail f r = record r { passed = false; failures = r.failures ++ f ∷ [] }

abbrev pub warn : Warning → ValidationResult → ValidationResult
warn w r = record r { warnings = r.warnings ++ w ∷ [] }

unfoldable pub count_items : Items → ℕ
count_items nil = 0
count_items (cons v rest) = suc (count_items rest)

-- the length, where Array.isArray(value)
unfoldable pub array_length : Option Json → Option ℕ
unfolding count_items
array_length (some (arr items)) = some (count_items items)
array_length _ = none

-- (value || 0) === n
unfoldable pub equals_number : Option Json → ℕ → Bool
unfolding truthy
equals_number (some (num m)) n = nat_eq m n
equals_number v n = if truthy v then false else nat_eq 0 n

abbrev pub or_null : Option Json → Json
or_null none = null
or_null (some v) = v

unfoldable pub find_trace : Text → List TraceMetadata → Option TraceMetadata
find_trace id [] = none
find_trace id (t ∷ ts) = if t.trace_id == id then some t else find_trace id ts

check_events : TraceMetadata → Json → ValidationResult → ValidationResult
unfolding member array_length codes
check_events t answer r = elim (array_length (member (codes "events") answer)) [
  | none ↦ fail missing_events r
  | some actual ↦
      if nat_eq actual t.event_count then r else fail (event_count_mismatch t.event_count actual) r
]

check_races : TraceMetadata → Json → ValidationResult → ValidationResult
unfolding member codes equals_number truthy
check_races t answer r =
    let analysis = member (codes "analysis") answer in
    if not (truthy analysis)
    then warn missing_analysis r
    else let actual = member (codes "potential_races") (or_null analysis) in
      if equals_number actual t.expected_races
      then r
      else fail (race_count_mismatch t.expected_races (or_null actual)) r

check_anomalies : TraceMetadata → Json → ValidationResult → ValidationResult
unfolding member array_length codes
check_anomalies t answer r = elim (array_length (member (codes "anomalies") answer)) [
  | none ↦ warn missing_anomalies r
  | some actual ↦
      if nat_eq actual t.expected_anomalies
      then r
      else fail (anomaly_count_mismatch t.expected_anomalies actual) r
]

validate_data : TraceMetadata → Json → ValidationResult → ValidationResult
unfolding check_events check_races check_anomalies
validate_data t answer r = check_anomalies t answer (check_races t answer (check_events t answer r))

abbrev new_result : ValidationResult
new_result = record { passed = true; failures = []; warnings = [] }

validate_answer : TraceMetadata → Fields → ValidationResult
unfolding validate_data truthy codes field_value
validate_answer t response =
    if not (truthy (field_value (codes "success") response))
    then fail api_failure new_result
    else let answer = field_value (codes "data") response in
      if not (truthy answer)
      then fail missing_data new_result
      else validate_data t (or_null answer) new_result

unfoldable pub validate_trace : Text → Fields → SeedMetadata → ValidationResult
unfolding validate_answer find_trace
validate_trace trace_id response metadata = elim (find_trace trace_id metadata.traces) [
  | none ↦ fail (unknown_trace trace_id) new_result
  | some t ↦ validate_answer t response
]
