-- ===== src/Web/Rows/Apart.antt =====
-- The events on the rows (web/src/components/features/events/TimelineView.tsx).
use raceway.Prelude.{
  ℕ, ◌≤◌, ◌≡◌, refl, sym, ap, subst, inl, inr, List, [], ◌∷◌, none, some, map, get_elem?, nat_eq,
  arith, Bool-cases, In, sort_by, IsSortedBy, sort_by-IsSortedBy,
}
use raceway.Web.Rows.{
  TimelineEvent, assigned_row, set_row_end, end_of, assign_sorted, assign_rows_to_events,
}
use raceway.Web.Rows.Fit.{IsFit, assigned_row-IsFit, get_elem?-set_row_end}

abbrev pub start_of : TimelineEvent → ℕ
start_of e = e.start_time

-- Of two events on one row, the one ends by the start of the other, which is later in the list.
abbrev pub AreApart : List TimelineEvent → Type 0
AreApart [] = Unit
AreApart (e ∷ es) =
    ((d : TimelineEvent) → In d es → d.row ≡ e.row → end_of e ≤ d.start_time) × AreApart es

-- The row of an event ends by its start.
Waits : List ℕ → TimelineEvent → Type 0
Waits rows d = (r t : ℕ) → d.row ≡ some r → get_elem? rows r ≡ some t → t ≤ d.start_time

-- One event that is put on its row, before another.
after_end :
    (e d : TimelineEvent) (rows : List ℕ) (r : ℕ)
    → IsFit e.start_time rows r
    → Waits (set_row_end r (end_of e) rows) d
    → d.row ≡ some r
    → end_of e ≤ d.start_time
unfolding Waits
after_end e d rows r fit waits same =
    waits r (end_of e) same (ground (arith, get_elem?-set_row_end r (end_of e) r rows fit.0))

earlier-Waits :
    (e d : TimelineEvent) (rows : List ℕ) (r : ℕ)
    → IsFit e.start_time rows r
    → e.start_time ≤ d.start_time
    → Waits (set_row_end r (end_of e) rows) d
    → Waits rows d
unfolding Waits
earlier-Waits e d rows r fit le waits k t at found = elim (Bool-cases (nat_eq r k)) [
  | inl same ↦
      let r_is_k : r ≡ k = ground (arith, same) in
      omega (arith, le, fit.1 t (subst (λ i. get_elem? rows i ≡ some t) (sym r_is_k) found))
  | inr other ↦
      waits k t at (ground (arith, other, found, get_elem?-set_row_end r (end_of e) k rows fit.0))
]

-- The later events start no earlier.
assign_sorted-starts :
    (rows : List ℕ) (es : List TimelineEvent) (n : ℕ)
    → ((d : TimelineEvent) → In d es → n ≤ d.start_time)
    → (d : TimelineEvent) → In d (assign_sorted rows es)
    → n ≤ d.start_time
unfolding assign_sorted
assign_sorted-starts rows [] n h d i = absurd i
assign_sorted-starts rows (e ∷ es) n h d (inl same) =
    subst (λ (x : TimelineEvent). n ≤ x.start_time) same (h e (inl refl))
assign_sorted-starts rows (e ∷ es) n h d (inr i) =
    assign_sorted-starts (set_row_end (assigned_row e.start_time rows) (end_of e) rows) es n
      (λ x j. h x (inr j)) d i

assign_sorted-Waits :
    (rows : List ℕ) (es : List TimelineEvent)
    → IsSortedBy start_of es
    → (d : TimelineEvent) → In d (assign_sorted rows es)
    → Waits rows d
unfolding assign_sorted Waits
assign_sorted-Waits rows [] s d i = absurd i
assign_sorted-Waits rows (e ∷ es) s d (inl same) = λ r t at found.
    let fit = assigned_row-IsFit e.start_time rows in
    let row : assigned_row e.start_time rows ≡ r =
      ground (arith, at, ap (λ (x : TimelineEvent). x.row) same) in
    subst (λ (x : TimelineEvent). t ≤ x.start_time) same
      (fit.1 t (subst (λ i. get_elem? rows i ≡ some t) (sym row) found))
assign_sorted-Waits rows (e ∷ es) s d (inr i) =
    let r = assigned_row e.start_time rows in
    let rest = set_row_end r (end_of e) rows in
    earlier-Waits e d rows r (assigned_row-IsFit e.start_time rows)
      (assign_sorted-starts rest es e.start_time s.0 d i) (assign_sorted-Waits rest es s.1 d i)

pub assign_sorted-AreApart :
    (rows : List ℕ) (es : List TimelineEvent)
    → IsSortedBy start_of es
    → AreApart (assign_sorted rows es)
unfolding assign_sorted
assign_sorted-AreApart rows [] s = tt
assign_sorted-AreApart rows (e ∷ es) s =
    let r = assigned_row e.start_time rows in
    let rest = set_row_end r (end_of e) rows in
    (
      (λ d i at.
          after_end e d rows r (assigned_row-IsFit e.start_time rows)
            (assign_sorted-Waits rest es s.1 d i) at),
      assign_sorted-AreApart rest es s.1,
    )

-- The event without its row.
abbrev pub unplaced : TimelineEvent → TimelineEvent
unplaced e = record e { row = none }

assign_sorted-unplaced :
    (rows : List ℕ) (es : List TimelineEvent)
    → map unplaced (assign_sorted rows es) ≡ map unplaced es
unfolding assign_sorted
assign_sorted-unplaced rows [] = refl
assign_sorted-unplaced rows (e ∷ es) =
    ap (λ l. unplaced e ∷ l)
      (assign_sorted-unplaced (set_row_end (assigned_row e.start_time rows) (end_of e) rows) es)

-- The events of a thread keep all but their rows, in the order of their starts; and of two that are
-- put on one row, the first ends by the time that the second starts.
pub assign_rows_to_events-AreApart :
    (events : List TimelineEvent)
    → AreApart (assign_rows_to_events events)
      × (map unplaced (assign_rows_to_events events) ≡ map unplaced (sort_by start_of events))
unfolding assign_rows_to_events
assign_rows_to_events-AreApart events = (
  assign_sorted-AreApart [] (sort_by start_of events) (sort_by-IsSortedBy start_of events),
  assign_sorted-unplaced [] (sort_by start_of events),
)
