-- ===== src/Web/Rows/Few.antt =====
-- No fewer rows would do (web/src/components/features/events/TimelineView.tsx).
use raceway.Prelude.{
  ℕ, suc, ◌≤◌, ◌<◌, max, ◌≡◌, refl, sym, ap, subst, ◌∙◌, ◌⊎◌, inl, inr, List, [], ◌∷◌, some,
  get_elem?, nat_eq, arith, Bool-cases, In, sort_by, IsSortedBy, sort_by-IsSortedBy, In-sort_by,
}
use raceway.Web.Rows.{
  TimelineEvent, assigned_row, set_row_end, end_of, assign_sorted, assign_rows_to_events,
  row_or_zero, max_row, row_count,
}
use raceway.Web.Rows.Fit.{assigned_row-IsFit, get_elem?-set_row_end}
use raceway.Web.Rows.Apart.{start_of}

-- At the start of the event, an event of the list is on the row that has started and not ended.
abbrev pub IsRunning : List TimelineEvent → TimelineEvent → ℕ → Type 0
IsRunning placed e k =
    (d : TimelineEvent) × In d placed
    × (d.row ≡ some k)
    × (d.start_time ≤ e.start_time)
    × (e.start_time < end_of d)

-- On each row below that of the event, an event is running at its start.
abbrev pub IsNeeded : List TimelineEvent → TimelineEvent → Type 0
IsNeeded placed e = (r k : ℕ) → e.row ≡ some r → k < r → IsRunning placed e k

-- The end of each row is that of an event on it, which starts no later than the coming events.
IsBacked : List TimelineEvent → List ℕ → List TimelineEvent → Type 0
IsBacked placed rows coming =
    (k t : ℕ)
    → get_elem? rows k ≡ some t
    → (d : TimelineEvent) × In d placed
      × (d.row ≡ some k)
      × (end_of d ≡ t)
      × ((e : TimelineEvent) → In e coming → d.start_time ≤ e.start_time)

module _ (placed : List TimelineEvent) where
  abbrev AllPlaced : List TimelineEvent → Type 0
  AllPlaced es = (e : TimelineEvent) → In e es → In e placed

  set_row_end-IsBacked :
      (rows : List ℕ) (e : TimelineEvent) (es : List TimelineEvent)
      → IsBacked placed rows (e ∷ es)
      → In (record e { row = some (assigned_row e.start_time rows) }) placed
      → ((d : TimelineEvent) → In d es → e.start_time ≤ d.start_time)
      → IsBacked placed (set_row_end (assigned_row e.start_time rows) (end_of e) rows) es
  unfolding IsBacked
  set_row_end-IsBacked rows e es backed i later k t found =
      let r = assigned_row e.start_time rows in
      let look =
        get_elem?-set_row_end r (end_of e) k rows (assigned_row-IsFit e.start_time rows).0 in
      elim (Bool-cases (nat_eq r k)) [
        | inl same ↦ (
          record e { row = some r },
          i,
          ground (arith, same),
          ground (arith, same, found, look),
          later,
        )
        | inr other ↦
            let (d, at, row, ends, before) = backed k t (ground (arith, other, found, look)) in
            (d, at, row, ends, (λ x j. before x (inr j)))
      ]

  assign_sorted-IsNeeded :
      (rows : List ℕ) (es : List TimelineEvent)
      → IsSortedBy start_of es
      → IsBacked placed rows es
      → AllPlaced (assign_sorted rows es)
      → (e : TimelineEvent) → In e (assign_sorted rows es)
      → IsNeeded placed e
  unfolding assign_sorted IsBacked
  assign_sorted-IsNeeded rows [] s backed all e i = absurd i
  assign_sorted-IsNeeded rows (d ∷ es) s backed all e (inl same) = λ r k at lt.
      let fit = assigned_row-IsFit d.start_time rows in
      let row : assigned_row d.start_time rows ≡ r =
        ground (arith, at, ap (λ (x : TimelineEvent). x.row) same) in
      let (t, found, busy) = fit.2 k (subst (λ n. k < n) (sym row) lt) in
      let (x, there, on, ends, before) = backed k t found in
      subst (λ y. IsRunning placed y k) same
        (x, there, on, before d (inl refl), subst (λ n. d.start_time < n) (sym ends) busy)
  assign_sorted-IsNeeded rows (d ∷ es) s backed all e (inr i) =
      assign_sorted-IsNeeded (set_row_end (assigned_row d.start_time rows) (end_of d) rows) es s.1
        (set_row_end-IsBacked rows d es backed
          (all (record d { row = some (assigned_row d.start_time rows) }) (inl refl)) s.0)
        (λ x j. all x (inr j)) e i

-- The greatest row is that of an event, or the one at the start.
max_row-reached :
    (most : ℕ) (es : List TimelineEvent)
    → (max_row most es ≡ most) ⊎ ((e : TimelineEvent) × In e es × (row_or_zero e ≡ max_row most es))
unfolding max_row
max_row-reached most [] = inl refl
max_row-reached most (e ∷ es) = elim (max_row-reached (max most (row_or_zero e)) es) [
  | inl first ↦
      let one : (max most (row_or_zero e) ≡ most) ⊎ (max most (row_or_zero e) ≡ row_or_zero e) =
        ground arith in
      elim one [ inl kept ↦ inl (first ∙ kept) | inr new ↦ inr (e, inl refl, sym (first ∙ new)) ]
  | inr (d, i, same) ↦ inr (d, inr i, same)
]

pub max_row-le :
    (most : ℕ) (es : List TimelineEvent)
    → (most ≤ max_row most es) × ((e : TimelineEvent) → In e es → row_or_zero e ≤ max_row most es)
unfolding max_row
max_row-le most [] = (omega arith, (λ e i. absurd i))
max_row-le most (d ∷ es) =
    let ih = max_row-le (max most (row_or_zero d)) es in
    (
      omega (arith, ih.0),
      (λ e i. elim i [
        | inl same ↦ subst (λ x. row_or_zero x ≤ max_row most (d ∷ es)) same (omega (arith, ih.0))
        | inr j ↦ ih.1 e j
      ]),
    )

pub assign_sorted-row :
    (rows : List ℕ) (es : List TimelineEvent) (e : TimelineEvent)
    → In e (assign_sorted rows es)
    → (r : ℕ) × (e.row ≡ some r)
unfolding assign_sorted
assign_sorted-row rows [] e i = absurd i
assign_sorted-row rows (d ∷ es) e (inl same) =
    (assigned_row d.start_time rows, sym (ap (λ (x : TimelineEvent). x.row) same))
assign_sorted-row rows (d ∷ es) e (inr i) =
    assign_sorted-row (set_row_end (assigned_row d.start_time rows) (end_of d) rows) es e i

assign_sorted-first :
    (rows : List ℕ) (es : List TimelineEvent) (e : TimelineEvent)
    → In e es
    → (d : TimelineEvent) × In d (assign_sorted rows es)
unfolding assign_sorted
assign_sorted-first rows [] e i = absurd i
assign_sorted-first rows (d ∷ es) e i =
    (record d { row = some (assigned_row d.start_time rows) }, inl refl)

-- An event on the last of the counted rows.
last_row :
    (placed : List TimelineEvent) (d : TimelineEvent)
    → In d placed
    → (e : TimelineEvent) × In e placed × (suc (row_or_zero e) ≡ row_count placed)
unfolding row_count
last_row placed d i = elim (max_row-reached 0 placed) [
  | inl none_more ↦ (d, i, omega (arith, none_more, (max_row-le 0 placed).1 d i))
  | inr (e, j, same) ↦ (e, j, ap suc same)
]

-- The rows of a thread that has an event are numbered below their count, and an event is on the last
-- of them at whose start an event is running on each of the others: one that has started by then, and
-- ends later.
pub assign_rows_to_events-row_count :
    (events : List TimelineEvent) (one : TimelineEvent)
    → In one events
    → ((d : TimelineEvent) (k : ℕ)
        → In d (assign_rows_to_events events)
        → d.row ≡ some k
        → k < row_count (assign_rows_to_events events))
      × ((e : TimelineEvent) × (r : ℕ) × In e (assign_rows_to_events events)
          × (e.row ≡ some r)
          × (suc r ≡ row_count (assign_rows_to_events events))
          × ((k : ℕ) → k < r → IsRunning (assign_rows_to_events events) e k))
unfolding assign_rows_to_events row_count IsBacked
assign_rows_to_events-row_count events one i =
    let es = sort_by start_of events in
    let placed = assign_sorted [] es in
    let some_event = assign_sorted-first [] es one (In-sort_by start_of one events i) in
    let (e, at, last) = last_row placed some_event.0 some_event.1 in
    let (r, row) = assign_sorted-row [] es e at in
    (
      (λ d k j on. ground (arith, on, (max_row-le 0 placed).1 d j)),
      (
        e,
        r,
        at,
        row,
        ground (arith, row, last),
        (λ k lt.
            assign_sorted-IsNeeded placed [] es (sort_by-IsSortedBy start_of events)
              (λ j t h. absurd (ground (arith, h))) (λ x j. j) e at r k row lt),
      ),
    )
