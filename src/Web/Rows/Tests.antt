-- ===== src/Web/Rows/Tests.antt =====
-- The rows of few events (web/src/components/features/events/TimelineView.tsx).
use raceway.Prelude.{
  ℕ, suc, ◌≡◌, ◌<◌, ◌↔◌, Option, refl, inl, List, [], ◌∷◌, some, map, In, sort_by,
}
use raceway.Text.{Text, ◌==◌}
use raceway.Web.Tests.{first, trace, get_time}
use raceway.Web.Rows.{
  TimelineEvent, parse_event, timeline_data, thread_events, assign_rows_to_events, row_count,
  get_overlapping_events,
}
use raceway.Web.Rows.Apart.{AreApart, start_of, unplaced, assign_rows_to_events-AreApart}
use raceway.Web.Rows.Few.{IsRunning, assign_rows_to_events-row_count}
use raceway.Web.Rows.Marked.{get_overlapping_events-row_count}

abbrev thread : Text
thread = b'x' ∷ []

abbrev drawn : List TimelineEvent
unfolding timeline_data
drawn = timeline_data get_time trace

rows_of_x :
    map {B = ℕ × Option ℕ} (λ e. (e.start_time, e.row)) (thread_events get_time trace thread)
    ≡ (4, some 0) ∷ (5, some 1) ∷ []
unfolding thread_events ◌==◌
rows_of_x = refl

assign_rows_to_events-AreApart_example :
    AreApart (assign_rows_to_events drawn)
    × (map unplaced (assign_rows_to_events drawn) ≡ map unplaced (sort_by start_of drawn))
assign_rows_to_events-AreApart_example = assign_rows_to_events-AreApart drawn

assign_rows_to_events-row_count_example :
    ((d : TimelineEvent) (k : ℕ)
      → In d (assign_rows_to_events drawn)
      → d.row ≡ some k
      → k < row_count (assign_rows_to_events drawn))
    × ((e : TimelineEvent) × (r : ℕ) × In e (assign_rows_to_events drawn)
        × (e.row ≡ some r)
        × (suc r ≡ row_count (assign_rows_to_events drawn))
        × ((k : ℕ) → k < r → IsRunning (assign_rows_to_events drawn) e k))
unfolding drawn
assign_rows_to_events-row_count_example =
    assign_rows_to_events-row_count drawn (parse_event get_time first) (inl refl)

get_overlapping_events-row_count_example :
    (get_overlapping_events (timeline_data get_time trace) thread ≡ [])
    ↔ (row_count (thread_events get_time trace thread) ≡ 1)
get_overlapping_events-row_count_example = get_overlapping_events-row_count get_time trace thread
