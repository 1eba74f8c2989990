-- ===== src/Scripts/Seeding/Run/Validated.antt =====
-- What the seeding script notes is what the validation of scripts/validate-trace.ts finds.
use raceway.Prelude.{
  ℕ, ◌+◌, ◌≡◌, refl, ap, ◌∙◌, subst, Bool, true, false, ◌||◌, List, [], ◌++◌, some, count,
  count-append, In, inl, inr, nat_eq, nat_eq_iff, arith, if◌then◌else◌,
}
use raceway.Text.{Text, codes, ◌==◌, eq_refl, eq_iff}
use raceway.Json.{truthy, member, Json, Fields, field_value, num}
use raceway.Scripts.ValidateTrace.{
  TraceMetadata, SeedMetadata, array_length, or_null, equals_number, find_trace, validate_trace,
}
use raceway.Scripts.ValidateTrace.Verdict.{agrees, is_number, is_or_missing, validate_trace-verdict}
use raceway.Scripts.Seeding.{Platform, Event, create_event, lasting}
use raceway.Scripts.Seeding.Traces.{create_trace1, create_trace2, create_trace3}
use raceway.Scripts.Seeding.Run.{
  seed_trace1, seed_trace2, seed_trace3, seed_events1, seed_events2, seed_events3, seed_metadata,
  seed_all, main,
}

-- How many events of a trace there are.
abbrev pub of_trace : Text → List Event → ℕ
of_trace id events = count (λ e. e.trace_id == id) events

-- The ids of the three traces are different.
abbrev pub HasDistinctTraces : Platform → Type 0
HasDistinctTraces platform =
    ((platform.uuid 0 == platform.uuid 1) ≡ false)
    × ((platform.uuid 0 == platform.uuid 2) ≡ false)
    × ((platform.uuid 1 == platform.uuid 2) ≡ false)

eq_sym : (s t : Text) → (s == t) ≡ false → (t == s) ≡ false
eq_sym s t h = ground (arith, h, eq_iff s t, eq_iff t s)

module _ (platform : Platform) (distinct : HasDistinctTraces platform) where
  -- The posts of one run in which each is answered with a success.
  abbrev all_events : List Event
  all_events =
      (seed_events1 platform).0 ++ ((seed_events2 platform).0 ++ ((seed_events3 platform).0 ++ []))

  of_trace-all :
      (id : Text)
      → of_trace id all_events
        ≡ (if platform.uuid 0 == id then 8 else 0)
          + ((if platform.uuid 1 == id then 8 else 0) + (if platform.uuid 2 == id then 9 else 0))
  unfolding seed_events1 seed_events2 seed_events3 seed_trace1 seed_trace2 seed_trace3 create_trace1
      create_trace2 create_trace3 create_event lasting
  of_trace-all id = ground arith

  posted-all : (ok : ℕ → Bool) → ((n : ℕ) → ok n ≡ true) → (main platform ok).posted ≡ all_events
  unfolding main seed_all
  posted-all ok yes_ = simp (yes_ 0, yes_ 1, yes_ 2) refl

  abbrev Found : TraceMetadata → Type 0
  Found t =
      (find_trace t.trace_id (seed_metadata platform).traces ≡ some t)
      × (of_trace t.trace_id all_events ≡ t.event_count)

  -- Each entry of the metadata is found by its id, and counts the events that are posted.
  noted-Found : (t : TraceMetadata) → In t (seed_metadata platform).traces → Found t
  unfolding seed_metadata find_trace seed_trace1 seed_trace2 seed_trace3 seed_events1 seed_events2
      seed_events3 create_trace1 create_trace2 create_trace3
  noted-Found t (inl e) = subst Found e (
    simp (eq_refl (platform.uuid 0)) refl,
    of_trace-all (platform.uuid 0)
        ∙ simp
            (
              eq_refl (platform.uuid 0),
              eq_sym (platform.uuid 0) (platform.uuid 1) distinct.0,
              eq_sym (platform.uuid 0) (platform.uuid 2) distinct.1,
            )
            refl,
  )
  noted-Found t (inr (inl e)) = subst Found e (
    simp (distinct.0, eq_refl (platform.uuid 1)) refl,
    of_trace-all (platform.uuid 1)
        ∙ simp
            (
              distinct.0,
              eq_refl (platform.uuid 1),
              eq_sym (platform.uuid 1) (platform.uuid 2) distinct.2,
            )
            refl,
  )
  noted-Found t (inr (inr (inl e))) = subst Found e (
    simp (distinct.1, distinct.2, eq_refl (platform.uuid 2)) refl,
    of_trace-all (platform.uuid 2) ∙ simp (distinct.1, distinct.2, eq_refl (platform.uuid 2)) refl,
  )
  noted-Found t (inr (inr (inr none_))) = absurd none_

-- What a server answers for a trace: the events that it has of it, and how many races and anomalies
-- it finds.
pub record Reports (id : Text) (stored : List Event) (races anomalies : ℕ) (response : Fields)
    : Type 0 where
  pub is_success : truthy (field_value (codes "success") response) ≡ true
  pub answer : Json
  pub has_data : field_value (codes "data") response ≡ some answer
  pub is_data : truthy (some answer) ≡ true
  pub events : array_length (member (codes "events") answer) ≡ some (of_trace id stored)
  pub races_found :
      member (codes "potential_races") (or_null (member (codes "analysis") answer))
      ≡ some (num races)
  pub anomalies_found : array_length (member (codes "anomalies") answer) ≡ some anomalies

or_true : (b : Bool) → (b || true) ≡ true
or_true b = ground arith

nat_eq_refl : (n : ℕ) → nat_eq n n ≡ true
nat_eq_refl n = (nat_eq_iff n n).1 refl

-- A trace that is known, of which a server reports what is noted.
agrees-Reports :
    (metadata : SeedMetadata) (t : TraceMetadata) (stored : List Event) (response : Fields)
    → find_trace t.trace_id metadata.traces ≡ some t
    → of_trace t.trace_id stored ≡ t.event_count
    → Reports t.trace_id stored t.expected_races t.expected_anomalies response
    → agrees t.trace_id response metadata ≡ true
unfolding agrees is_number is_or_missing equals_number
agrees-Reports metadata t stored response known counted h =
    rw (agrees, known)
      (simp
        (
          h.is_success,
          h.has_data,
          h.is_data,
          h.events,
          h.races_found,
          h.anomalies_found,
          counted,
          nat_eq_refl t.event_count,
          nat_eq_refl t.expected_races,
          nat_eq_refl t.expected_anomalies,
          or_true,
        )
        refl)

-- After a run of the seeding script with different trace ids and every post successful, each trace
-- of its metadata passes the validation, if the server had no events of that trace before and
-- answers with the events that it has and with the noted numbers of races and anomalies.
pub validate_trace-seeded :
    (platform : Platform) (ok : ℕ → Bool) (before : List Event) (t : TraceMetadata)
    (response : Fields)
    → HasDistinctTraces platform
    → ((n : ℕ) → ok n ≡ true)
    → In t (main platform ok).metadata.traces
    → of_trace t.trace_id before ≡ 0
    → Reports t.trace_id
        (before ++ (main platform ok).posted)
        t.expected_races
        t.expected_anomalies
        response
    → (validate_trace t.trace_id response (main platform ok).metadata).passed ≡ true
unfolding main
validate_trace-seeded platform ok before t response distinct yes_ here fresh h =
    let found = noted-Found platform distinct t here in
    let posted = ap (of_trace t.trace_id) (posted-all platform distinct ok yes_) ∙ found.1 in
    let counted : of_trace t.trace_id (before ++ (main platform ok).posted) ≡ t.event_count =
      omega (
        arith,
        posted,
        fresh,
        count-append (λ (e : Event). e.trace_id == t.trace_id) before (main platform ok).posted,
      ) in
    (validate_trace-verdict t.trace_id response (main platform ok).metadata).0
    ∙ agrees-Reports (main platform ok).metadata t (before ++ (main platform ok).posted) response
        found.0 counted h
