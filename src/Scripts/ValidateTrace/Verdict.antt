-- ===== src/Scripts/ValidateTrace/Verdict.antt =====
-- When `validateTrace` of scripts/validate-trace.ts says that a trace has passed.
use raceway.Prelude.{
  ℕ, ◌≡◌, refl, Bool, true, false, not, ◌&&◌, ◌||◌, List, [], ◌∷◌, ◌++◌, Option, none, some, nat_eq,
  arith, Option-cases, inl, inr,
}
use raceway.Text.{Text, codes}
use raceway.Json.{truthy, member, Json, Fields, field_value}
use raceway.Scripts.ValidateTrace.{
  Failure, missing_events, event_count_mismatch, race_count_mismatch, anomaly_count_mismatch,
  TraceMetadata, SeedMetadata, ValidationResult, array_length, equals_number, or_null, find_trace,
  check_events, check_races, check_anomalies, validate_data, validate_answer, validate_trace,
  new_result,
}

unfoldable pub is_empty : List Failure → Bool
is_empty [] = true
is_empty (f ∷ fs) = false

-- The mark agrees with the list of failures.
abbrev IsConsistent : ValidationResult → Type 0
IsConsistent r = r.passed ≡ is_empty r.failures

unfoldable pub is_or_missing : Option ℕ → ℕ → Bool
is_or_missing none n = true
is_or_missing (some m) n = nat_eq m n

unfoldable pub is_number : Option ℕ → ℕ → Bool
is_number none n = false
is_number (some m) n = nat_eq m n

module _ (t : TraceMetadata) (answer : Json) where
  abbrev events_agree : Bool
  events_agree = is_number (array_length (member (codes "events") answer)) t.event_count

  abbrev races_agree : Bool
  races_agree =
      let analysis = member (codes "analysis") answer in
      not (truthy analysis)
      || equals_number (member (codes "potential_races") (or_null analysis)) t.expected_races

  abbrev anomalies_agree : Bool
  anomalies_agree =
      is_or_missing (array_length (member (codes "anomalies") answer)) t.expected_anomalies

  -- One check keeps the result consistent and lets it pass exactly if it passed and the answer
  -- agrees.
  abbrev Decides : (ValidationResult → ValidationResult) → Bool → Type 0
  Decides check agreed =
      (r : ValidationResult)
      → IsConsistent r
      → IsConsistent (check r) × ((check r).passed ≡ (r.passed && agreed))

  is_empty-snoc : (fs : List Failure) (f : Failure) → is_empty (fs ++ f ∷ []) ≡ false
  unfolding is_empty
  is_empty-snoc [] f = refl
  is_empty-snoc (g ∷ fs) f = refl

  Decides-events : Decides (check_events t answer) events_agree
  unfolding check_events is_number
  Decides-events r h = elim (Option-cases (array_length (member (codes "events") answer))) [
    | inl e ↦ ground (arith, e, is_empty-snoc r.failures missing_events)
    | inr (n, e) ↦
        ground (arith, e, is_empty-snoc r.failures (event_count_mismatch t.event_count n))
  ]

  Decides-races : Decides (check_races t answer) races_agree
  unfolding check_races
  Decides-races r h =
      let analysis = member (codes "analysis") answer in
      let actual = member (codes "potential_races") (or_null analysis) in
      ground
        (arith, is_empty-snoc r.failures (race_count_mismatch t.expected_races (or_null actual)))

  Decides-anomalies : Decides (check_anomalies t answer) anomalies_agree
  unfolding check_anomalies is_or_missing
  Decides-anomalies r h = elim (Option-cases (array_length (member (codes "anomalies") answer))) [
    | inl e ↦ ground (arith, e)
    | inr (n, e) ↦
        ground (arith, e, is_empty-snoc r.failures (anomaly_count_mismatch t.expected_anomalies n))
  ]

  Decides-data : Decides (validate_data t answer) (events_agree && races_agree && anomalies_agree)
  unfolding validate_data
  Decides-data r h =
      let events = Decides-events r h in
      let races = Decides-races (check_events t answer r) events.0 in
      let last = Decides-anomalies (check_races t answer (check_events t answer r)) races.0 in
      (last.0, ground (arith, events.1, races.1, last.1))

-- What it takes to pass: the trace is known, the answer is a success with data, its events are as
-- many as noted, and so are its races and its anomalies, where it reports them.
unfoldable pub agrees : Text → Fields → SeedMetadata → Bool
agrees trace_id response metadata = elim (find_trace trace_id metadata.traces) [
  | none ↦ false
  | some t ↦
      let answer = field_value (codes "data") response in
      truthy (field_value (codes "success") response)
      && truthy answer
      && events_agree t (or_null answer)
      && races_agree t (or_null answer)
      && anomalies_agree t (or_null answer)
]

answer-verdict :
    (t : TraceMetadata) (response : Fields)
    → let r = validate_answer t response in
      let answer = field_value (codes "data") response in
      (r.passed ≡ is_empty r.failures)
      × (r.passed ≡ (
          truthy (field_value (codes "success") response)
          && truthy answer
          && events_agree t (or_null answer)
          && races_agree t (or_null answer)
          && anomalies_agree t (or_null answer)))
unfolding validate_answer is_empty
answer-verdict t response =
    let answer = field_value (codes "data") response in
    let decided = Decides-data t (or_null answer) new_result refl in
    ground (arith, decided.0, decided.1)

-- A trace passes exactly if it is known, the answer is a success with data, the events are as many
-- as noted, and so are the races and the anomalies where the answer reports them; and a trace
-- passes exactly if no failure is listed.
pub validate_trace-verdict :
    (trace_id : Text) (response : Fields) (metadata : SeedMetadata)
    → let r = validate_trace trace_id response metadata in
      (r.passed ≡ agrees trace_id response metadata) × (r.passed ≡ is_empty r.failures)
unfolding validate_trace agrees is_empty
validate_trace-verdict trace_id response metadata =
    elim (Option-cases (find_trace trace_id metadata.traces)) [
      | inl e ↦ ground (arith, e)
      | inr (t, e) ↦ ground (arith, e, answer-verdict t response)
    ]
