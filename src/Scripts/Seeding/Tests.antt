-- ===== src/Scripts/Seeding/Tests.antt =====
-- A run of the seeding script, and the answer to its first trace (scripts/seed-database.ts).
use raceway.Prelude.{ℕ, ◌≡◌, refl, Bool, true, [], ◌∷◌, inl}
use raceway.Text.{codes, ◌==◌}
use raceway.Json.{
  truthy, member, null, bool, num, arr, obj, Items, nil, cons, Fields, field, end, field_value,
}
use raceway.Scripts.ValidateTrace.{TraceMetadata, validate_trace, array_length}
use raceway.Scripts.Seeding.{Platform, create_event}
use raceway.Scripts.Seeding.Traces.{create_trace1, create_trace2, create_trace3}
use raceway.Scripts.Seeding.Run.{main, noted, seed_trace1, seed_events1}
use raceway.Scripts.Seeding.Run.Validated.{Reports, validate_trace-seeded}

abbrev counting : Platform
counting = record {
  uuid = λ k. k ∷ [];
  now = λ k. k;
  to_iso_string = λ time. time ∷ [];
  amount = num 100;
}

abbrev always : ℕ → Bool
always n = true

abbrev eight : Items
eight =
    cons null
      (cons null (cons null (cons null (cons null (cons null (cons null (cons null nil)))))))

abbrev first_answer : Fields
first_answer = field (codes "events") (arr eight) (
    field (codes "analysis") (obj (field (codes "potential_races") (num 3) end))
      (field (codes "anomalies") (arr nil) end))

abbrev first_response : Fields
first_response = field (codes "success") (bool true) (field (codes "data") (obj first_answer) end)

abbrev first_trace : TraceMetadata
first_trace = noted counting (seed_trace1 counting) (seed_events1 counting).0

first-Reports : Reports first_trace.trace_id (main counting always).posted 3 0 first_response
unfolding main create_trace1 create_trace2 create_trace3 create_event codes ◌==◌ field_value member
    array_length truthy seed_trace1
first-Reports = record {
  is_success = refl;
  answer = obj first_answer;
  has_data = refl;
  is_data = refl;
  events = refl;
  races_found = refl;
  anomalies_found = refl;
}

validate_trace-seeded_example :
    (validate_trace first_trace.trace_id first_response (main counting always).metadata).passed
    ≡ true
unfolding main ◌==◌ seed_trace1
validate_trace-seeded_example =
    validate_trace-seeded counting always [] first_trace first_response (refl, refl, refl)
      (λ n. refl) (inl refl) refl first-Reports
