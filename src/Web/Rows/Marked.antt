-- ===== src/Web/Rows/Marked.antt =====
-- A thread is marked where it needs two rows (web/src/components/features/events/TimelineView.tsx).
use raceway.Prelude.{
  ℕ, suc, ◌≤◌, max, ◌≡◌, ◌↔◌, refl, ◌∙◌, sym, ap, subst, List, [], ◌∷◌, ◌++◌, some, arith, In,
  sort_by, sort_by-IsSortedBy, inl, inr, ◌⊎◌,
}
use raceway.Text.{Text}
use raceway.Web.Types.{Event}
use raceway.Web.Rows.{
  TimelineEvent, free_row, assigned_row, set_row_end, end_of, assign_sorted, assign_rows_to_events,
  max_row, row_count, overlaps_with, overlaps, get_overlapping_events, timeline_data, thread_events,
  on_thread,
}
use raceway.Web.Rows.Apart.{start_of, AreApart, assign_sorted-AreApart}
use raceway.Web.Rows.Few.{max_row-le, assign_sorted-row}

abbrev EndsBefore : ℕ → List TimelineEvent → Type 0
EndsBefore t es = (d : TimelineEvent) → In d es → t ≤ d.start_time

overlaps_with-nil :
    (a : TimelineEvent) (es : List TimelineEvent)
    → (overlaps_with a es ≡ []) ↔ EndsBefore (end_of a) es
unfolding overlaps_with
overlaps_with-nil a [] = ((λ e d i. absurd i), (λ h. refl))
overlaps_with-nil a (b ∷ es) =
    let ih = overlaps_with-nil a es in
    (
      (λ e d i. elim i [
        | inl same ↦ subst (λ (x : TimelineEvent). end_of a ≤ x.start_time) same (ground (arith, e))
        | inr j ↦ ih.0 (ground (arith, e)) d j
      ]),
      (λ h. ground (arith, h b (inl refl), ih.1 (λ d j. h d (inr j)))),
    )

append_nil {ℓ} : {A : Type ℓ} (xs ys : List A) → xs ++ ys ≡ [] → (xs ≡ []) × (ys ≡ [])
append_nil [] ys h = (refl, h)
append_nil (x ∷ xs) ys h = absurd (ground (arith, h))

-- There is no row yet, or one that ends before the events.
abbrev IsAlone : List ℕ → List TimelineEvent → Type 0
IsAlone rows es = (rows ≡ []) ⊎ ((t : ℕ) × (rows ≡ t ∷ []) × EndsBefore t es)

first_row :
    (rows : List ℕ) (e : TimelineEvent) (es : List TimelineEvent)
    → IsAlone rows (e ∷ es)
    → (assigned_row e.start_time rows ≡ 0) × (set_row_end 0 (end_of e) rows ≡ end_of e ∷ [])
unfolding assigned_row free_row set_row_end
first_row rows e es (inl empty) =
    subst (λ l. (assigned_row e.start_time l ≡ 0) × (set_row_end 0 (end_of e) l ≡ end_of e ∷ []))
      (sym empty) (ground arith, refl)
first_row rows e es (inr (t, single, before)) =
    subst (λ l. (assigned_row e.start_time l ≡ 0) × (set_row_end 0 (end_of e) l ≡ end_of e ∷ []))
      (sym single) (ground (arith, before e (inl refl)), refl)

one_row :
    (rows : List ℕ) (es : List TimelineEvent)
    → IsAlone rows es
    → overlaps es ≡ []
    → max_row 0 (assign_sorted rows es) ≡ 0
unfolding max_row assign_sorted overlaps
one_row rows [] h none_over = refl
one_row rows (e ∷ es) h none_over =
    let first = first_row rows e es h in
    let parts = append_nil (overlaps_with e es) (overlaps es) none_over in
    subst (λ r. max_row (max 0 r) (assign_sorted (set_row_end r (end_of e) rows) es) ≡ 0)
      (sym first.0)
      (one_row (set_row_end 0 (end_of e) rows) es
        (inr (end_of e, first.1, (overlaps_with-nil e es).0 parts.0)) parts.1)

placed_start :
    (rows : List ℕ) (es : List TimelineEvent) (d : TimelineEvent)
    → In d es
    → (x : TimelineEvent) × In x (assign_sorted rows es) × (x.start_time ≡ d.start_time)
unfolding assign_sorted
placed_start rows [] d i = absurd i
placed_start rows (e ∷ es) d (inl same) = (
  record e { row = some (assigned_row e.start_time rows) },
  inl refl,
  ap (λ (x : TimelineEvent). x.start_time) same,
)
placed_start rows (e ∷ es) d (inr i) =
    let (x, j, at) =
      placed_start (set_row_end (assigned_row e.start_time rows) (end_of e) rows) es d i in
    (x, inr j, at)

no_overlap :
    (rows : List ℕ) (es : List TimelineEvent)
    → AreApart (assign_sorted rows es)
    → ((d : TimelineEvent) → In d (assign_sorted rows es) → d.row ≡ some 0)
    → overlaps es ≡ []
unfolding assign_sorted overlaps
no_overlap rows [] apart h = refl
no_overlap rows (e ∷ es) apart h =
    let rest = set_row_end (assigned_row e.start_time rows) (end_of e) rows in
    let head = h (record e { row = some (assigned_row e.start_time rows) }) (inl refl) in
    let before : EndsBefore (end_of e) es = (λ d i.
      let (x, j, at) = placed_start rest es d i in
      subst (λ n. end_of e ≤ n) at (apart.0 x j (h x (inr j) ∙ sym head))) in
    simp ((overlaps_with-nil e es).1 before) (no_overlap rest es apart.1 (λ d i. h d (inr i)))

-- A thread is drawn as one with overlapping events just if its events are on more than one row.
pub get_overlapping_events-row_count :
    (get_time : Text → ℕ) (events : List Event) (thread : Text)
    → (get_overlapping_events (timeline_data get_time events) thread ≡ [])
      ↔ (row_count (thread_events get_time events thread) ≡ 1)
unfolding get_overlapping_events thread_events assign_rows_to_events row_count
get_overlapping_events-row_count get_time events thread =
    let es = sort_by start_of (on_thread thread (timeline_data get_time events)) in
    let sorted = sort_by-IsSortedBy start_of (on_thread thread (timeline_data get_time events)) in
    (
      (λ h. ap suc (one_row [] es (inl refl) h)),
      (λ h. no_overlap [] es (assign_sorted-AreApart [] es sorted) (λ d i.
          let (r, row) = assign_sorted-row [] es d i in
          let least = (max_row-le 0 (assign_sorted [] es)).1 d i in
          row ∙ ap (λ n. some n) (ground (arith, row, least, h)))),
    )
