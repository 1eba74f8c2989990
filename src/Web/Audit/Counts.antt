-- ===== src/Web/Audit/Counts.antt =====
-- How often a variable is read and written (web/src/components/views/audit/AuditTrailView.tsx).
use raceway.Prelude.{
  ℕ, ◌+◌, ◌≡◌, refl, ap, subst, ◌∙◌, inl, inr, Bool, false, not, ◌&&◌, ◌||◌, List, [], ◌∷◌, Option,
  none, some, count, arith, In, Bool-cases, Option-cases, if◌then◌else◌,
}
use raceway.Text.{Text, codes, ◌==◌, eq_iff, eq_refl}
use raceway.Json.{Json, string_field}
use raceway.Maps.{get, set, keys, Distinct, Distinct-set, get-set}
use raceway.Web.Types.{Event}
use raceway.Web.Audit.{
  VariableSummary, state_change_of, variable_of, is_read, new_summary, count_access, SummaryMap,
  or_new, add_event, add_events,
}

-- The type of an access, if it is there, is that of a read.
abbrev pub is_read_type : Option Text → Bool
unfolding codes
is_read_type none = false
is_read_type (some t) = t == codes "Read" || t == codes "AtomicRead"

-- The event is a state change of the variable whose type is that of a read.
abbrev pub reads : Text → Event → Bool
unfolding string_field codes is_read_type
reads v event = elim (state_change_of event) [
  | none ↦ false
  | some c ↦ variable_of c == v && is_read_type (string_field (codes "access_type") c)
]

-- The event is a state change of the variable of any other type, or of none.
abbrev pub writes : Text → Event → Bool
unfolding string_field codes is_read_type
writes v event = elim (state_change_of event) [
  | none ↦ false
  | some c ↦ variable_of c == v && not (is_read_type (string_field (codes "access_type") c))
]

is_read-type : (c : Json) → is_read c ≡ is_read_type (string_field (codes "access_type") c)
unfolding is_read is_read_type codes ◌==◌
is_read-type c = elim (Option-cases (string_field (codes "access_type") c)) [
  | inl e ↦ rw (is_read, e) refl
  | inr ([], e) ↦ rw (is_read, e) refl
  | inr (u ∷ us, e) ↦ rw (is_read, e) refl
]

abbrev pub read_count_of : Option VariableSummary → ℕ
read_count_of none = 0
read_count_of (some s) = s.read_count

abbrev pub write_count_of : Option VariableSummary → ℕ
write_count_of none = 0
write_count_of (some s) = s.write_count

count_access-read_count :
    (event : Event) (c : Json) (o : Option VariableSummary) (v : Text)
    → ((count_access event c (or_new v event o)).read_count
        ≡ read_count_of o + (if is_read c then 1 else 0))
      × ((count_access event c (or_new v event o)).write_count
          ≡ write_count_of o + (if is_read c then 0 else 1))
unfolding count_access
count_access-read_count event c none v = ground arith
count_access-read_count event c (some s) v = ground arith

-- The name is the key, and no race is counted.
abbrev pub IsOf : Text → VariableSummary → Type 0
IsOf v s = (s.name ≡ v) × (s.race_count ≡ 0)

count_access-kept :
    (event : Event) (c : Json) (s : VariableSummary)
    → ((count_access event c s).name ≡ s.name)
      × ((count_access event c s).race_count ≡ s.race_count)
unfolding count_access
count_access-kept event c s = elim (Bool-cases (is_read c)) [
  | inl r ↦ rw (count_access, r) (refl, refl)
  | inr w ↦ rw (count_access, w) (refl, refl)
]

count_access-IsOf :
    (event : Event) (c : Json) (o : Option VariableSummary) (v : Text)
    → ((s : VariableSummary) → o ≡ some s → IsOf v s)
    → IsOf v (count_access event c (or_new v event o))
count_access-IsOf event c none v h = count_access-kept event c (new_summary v event)
count_access-IsOf event c (some s) v h =
    let kept = count_access-kept event c s in let of = h s refl in (kept.0 ∙ of.0, kept.1 ∙ of.1)

reads_of_change :
    (v : Text) (event : Event) (c : Json)
    → state_change_of event ≡ some c
    → (reads v event ≡ (variable_of c == v && is_read c))
      × (writes v event ≡ (variable_of c == v && not (is_read c)))
unfolding reads writes
reads_of_change v event c change = rw (change, reads, writes, is_read-type c) (refl, refl)

add_event-counts :
    (v : Text) (event : Event) (m : SummaryMap)
    → (read_count_of (get v (add_event event m))
        ≡ read_count_of (get v m) + (if reads v event then 1 else 0))
      × (write_count_of (get v (add_event event m))
          ≡ write_count_of (get v m) + (if writes v event then 1 else 0))
unfolding add_event
add_event-counts v event m = elim (Option-cases (state_change_of event)) [
  | inl other ↦ rw (add_event, other) (ground (arith, other), ground (arith, other))
  | inr (c, change) ↦
      let name = variable_of c in
      let counted = count_access event c (or_new name event (get name m)) in
      let look = get-set v name counted m in
      let both = count_access-read_count event c (get name m) name in
      let is = reads_of_change v event c change in
      elim (Bool-cases (name == v)) [
        | inl same ↦
            let at : get v (set name counted m) ≡ some counted = look ∙ simp same refl in
            let key : name ≡ v = (eq_iff name v).0 same in
            rw (add_event, change, at)
              (
                ground (arith, both.0, same, is.0, ap (λ k. read_count_of (get k m)) key),
                ground (arith, both.1, same, is.1, ap (λ k. write_count_of (get k m)) key),
              )
        | inr other ↦
            let at : get v (set name counted m) ≡ get v m = look ∙ simp other refl in
            rw (add_event, change, at) (ground (arith, other, is.0), ground (arith, other, is.1))
      ]
]

pub add_events-counts :
    (v : Text) (events : List Event) (m : SummaryMap)
    → (read_count_of (get v (add_events events m))
        ≡ read_count_of (get v m) + count (reads v) events)
      × (write_count_of (get v (add_events events m))
          ≡ write_count_of (get v m) + count (writes v) events)
unfolding add_events
add_events-counts v [] m = (omega arith, omega arith)
add_events-counts v (e ∷ es) m =
    let later = add_events-counts v es (add_event e m) in
    let one = add_event-counts v e m in
    (omega (arith, later.0, one.0), omega (arith, later.1, one.1))

abbrev pub AreNamed : SummaryMap → Type 0
AreNamed m = Distinct (keys m) × ((v : Text) (s : VariableSummary) → get v m ≡ some s → IsOf v s)

add_event-AreNamed : (event : Event) (m : SummaryMap) → AreNamed m → AreNamed (add_event event m)
unfolding add_event
add_event-AreNamed event m (distinct, named) = elim (Option-cases (state_change_of event)) [
  | inl other ↦ rw (add_event, other) (distinct, named)
  | inr (c, change) ↦
      let name = variable_of c in
      let counted = count_access event c (or_new name event (get name m)) in
      rw (add_event, change)
        (
          Distinct-set name counted m distinct,
          (λ v s found. elim (Bool-cases (name == v)) [
            | inl same ↦
                let is : counted ≡ s = ground (arith, found, get-set v name counted m, same) in
                subst (IsOf v) is (
                  subst (λ k. IsOf k counted) ((eq_iff name v).0 same)
                    (count_access-IsOf event c (get name m) name (named name)))
            | inr other ↦ named v s (ground (arith, found, get-set v name counted m, other))
          ]),
        )
]

pub add_events-AreNamed :
    (events : List Event) (m : SummaryMap) → AreNamed m → AreNamed (add_events events m)
unfolding add_events
add_events-AreNamed [] m named = named
add_events-AreNamed (e ∷ es) m named =
    add_events-AreNamed es (add_event e m) (add_event-AreNamed e m named)

-- A variable that has a summary keeps one, and one that is in an event gets one.
abbrev pub HasSummary : Text → SummaryMap → Type 0
HasSummary v m = (s : VariableSummary) × (get v m ≡ some s)

add_event-kept :
    (v : Text) (event : Event) (m : SummaryMap) → HasSummary v m → HasSummary v (add_event event m)
unfolding add_event
add_event-kept v event m (s, found) = elim (Option-cases (state_change_of event)) [
  | inl other ↦ rw (add_event, other) (s, found)
  | inr (c, change) ↦
      let name = variable_of c in
      let counted = count_access event c (or_new name event (get name m)) in
      elim (Bool-cases (name == v)) [
        | inl same ↦ rw (add_event, change) (counted, get-set v name counted m ∙ simp same refl)
        | inr other ↦
            rw (add_event, change) (s, get-set v name counted m ∙ (simp other refl ∙ found))
      ]
]

add_event-new :
    (event : Event) (c : Json) (m : SummaryMap)
    → state_change_of event ≡ some c
    → HasSummary (variable_of c) (add_event event m)
unfolding add_event
add_event-new event c m change =
    let name = variable_of c in
    let counted = count_access event c (or_new name event (get name m)) in
    rw (add_event, change) (counted, get-set name name counted m ∙ simp (eq_refl name) refl)

add_events-kept :
    (v : Text) (events : List Event) (m : SummaryMap)
    → HasSummary v m
    → HasSummary v (add_events events m)
unfolding add_events
add_events-kept v [] m h = h
add_events-kept v (e ∷ es) m h = add_events-kept v es (add_event e m) (add_event-kept v e m h)

pub add_events-HasSummary :
    (e : Event) (c : Json) (events : List Event) (m : SummaryMap)
    → In e events
    → state_change_of e ≡ some c
    → HasSummary (variable_of c) (add_events events m)
unfolding add_events
add_events-HasSummary e c [] m i change = absurd i
add_events-HasSummary e c (d ∷ es) m (inl same) change =
    add_events-kept (variable_of c) es (add_event d m)
      (add_event-new d c m (ap state_change_of same ∙ change))
add_events-HasSummary e c (d ∷ es) m (inr i) change =
    add_events-HasSummary e c es (add_event d m) i change
