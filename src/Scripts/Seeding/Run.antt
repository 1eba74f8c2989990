-- ===== src/Scripts/Seeding/Run.antt =====
-- `main` of scripts/seed-database.ts: what it notes for the validation, and what it posts. Whether
-- the n-th request is answered with a success is a parameter.
pub mod Validated
use raceway.Prelude.{
  ℕ, zero, suc, ◌+◌, Bool, true, false, List, [], ◌∷◌, ◌++◌, length, if◌then◌else◌,
}
use raceway.Text.{Text, codes}
use raceway.Scripts.ValidateTrace.{TraceMetadata, SeedMetadata}
use raceway.Scripts.Seeding.{Platform, Event}
use raceway.Scripts.Seeding.Traces.{create_trace1, create_trace2, create_trace3}

-- An entry of SEED_DATA without its events.
pub record SeedTrace : Type 0 where
  pub trace_id : Text
  pub name : Text
  pub expected_races : ℕ
  pub expected_anomalies : ℕ

-- What `main` leaves: the metadata file, the events of the posts that succeeded, and whether it
-- ended with process.exit(1).
pub record Outcome : Type 0 where
  pub metadata : SeedMetadata
  pub posted : List Event
  pub failed : Bool

module _ (platform : Platform) where
  -- SEED_DATA takes the first three ids.
  unfoldable pub seed_trace1 : SeedTrace
  unfolding codes
  seed_trace1 = record {
    trace_id = platform.uuid 0;
    name = codes "Banking Transaction Race";
    expected_races = 3;
    expected_anomalies = 0;
  }

  unfoldable pub seed_trace2 : SeedTrace
  unfolding codes
  seed_trace2 = record {
    trace_id = platform.uuid 1;
    name = codes "Slow Database Queries";
    expected_races = 0;
    expected_anomalies = 3;
  }

  unfoldable pub seed_trace3 : SeedTrace
  unfolding codes
  seed_trace3 = record {
    trace_id = platform.uuid 2;
    name = codes "Microservice Race & Anomaly";
    expected_races = 1;
    expected_anomalies = 2;
  }

  unfoldable pub seed_events1 : List Event × ℕ
  unfolding create_trace1 seed_trace1
  seed_events1 = create_trace1 platform seed_trace1.trace_id 3

  unfoldable pub seed_events2 : List Event × ℕ
  unfolding create_trace2 seed_trace2
  seed_events2 = create_trace2 platform seed_trace2.trace_id seed_events1.1

  unfoldable pub seed_events3 : List Event × ℕ
  unfolding create_trace3 seed_trace3
  seed_events3 = create_trace3 platform seed_trace3.trace_id seed_events2.1

  abbrev pub noted : SeedTrace → List Event → TraceMetadata
  noted t events = record {
    trace_id = t.trace_id;
    name = t.name;
    expected_races = t.expected_races;
    expected_anomalies = t.expected_anomalies;
    event_count = length events;
  }

  unfoldable pub seed_metadata : SeedMetadata
  unfolding seed_trace1 seed_trace2 seed_trace3 seed_events1 seed_events2 seed_events3
  seed_metadata = record {
    seeded_at = platform.to_iso_string (platform.now seed_events3.1);
    traces =
        noted seed_trace1 seed_events1.0
        ∷ noted seed_trace2 seed_events2.0
        ∷ noted seed_trace3 seed_events3.0
        ∷ [];
  }

  -- The calls of seedEvents, from the n-th request on: one that is not answered with a success
  -- throws, and nothing is posted after it.
  unfoldable pub seed_all : (ℕ → Bool) → ℕ → List (List Event) → List Event × Bool
  seed_all ok n [] = ([], false)
  seed_all ok n (events ∷ rest) =
      let others = seed_all ok (suc n) rest in
      if ok n then (events ++ others.0, others.1) else ([], true)

  unfoldable pub main : (ℕ → Bool) → Outcome
  unfolding seed_all seed_metadata seed_events1 seed_events2 seed_events3
  main ok =
      let posts = seed_all ok 0 (seed_events1.0 ∷ seed_events2.0 ∷ seed_events3.0 ∷ []) in
      record { metadata = seed_metadata; posted = posts.0; failed = posts.1 }
