-- ===== src/Web/Audit/Summaries.antt =====
-- The list of variables (web/src/components/views/audit/AuditTrailView.tsx).
use raceway.Prelude.{List, [], leb, Bool}
use raceway.Text.{Text}
use raceway.Json.{Json}
use raceway.Web.Types.{Event}
use raceway.Web.Audit.{VariableSummary, SummaryMap, add_events, access_count}

-- The sort of the summaries.
abbrev more_first : VariableSummary → VariableSummary → Bool
more_first a b = leb (access_count b) (access_count a)

module _ (events : List Event) where
  abbrev counted : SummaryMap
  unfolding add_events
  counted = add_events events []
