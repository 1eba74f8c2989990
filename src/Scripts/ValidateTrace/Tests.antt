-- ===== src/Scripts/ValidateTrace/Tests.antt =====
-- A run of `validateTrace` of scripts/validate-trace.ts.
use raceway.Prelude.{◌≡◌, refl, true, [], ◌∷◌}
use raceway.Text.{codes, ◌==◌}
use raceway.Json.{bool, arr, obj, nil, cons, null, Fields, end, field}
use raceway.Scripts.ValidateTrace.{SeedMetadata, validate_trace}
use raceway.Scripts.ValidateTrace.Verdict.{agrees, is_empty, validate_trace-verdict}

abbrev seeded : SeedMetadata
seeded = record {
  seeded_at = b'n' ∷ [];
  traces =
      record {
        trace_id = b't' ∷ [];
        name = b'n' ∷ [];
        expected_races = 0;
        expected_anomalies = 0;
        event_count = 2;
      }
      ∷ [];
}

abbrev answer : Fields
unfolding codes
answer =
    field (codes "success") (bool true) (
      field (codes "data") (obj (field (codes "events") (arr (cons null (cons null nil))) end)) end)

passes : (validate_trace (b't' ∷ []) answer seeded).passed ≡ true
unfolding validate_trace codes ◌==◌
passes = refl

validate_trace-verdict_example :
    let r = validate_trace (b't' ∷ []) answer seeded in
    (r.passed ≡ agrees (b't' ∷ []) answer seeded) × (r.passed ≡ is_empty r.failures)
validate_trace-verdict_example = validate_trace-verdict (b't' ∷ []) answer seeded
