-- ===== src/Web/App/Tests.antt =====
-- The application on short runs (web/src/App.tsx).
use raceway.Prelude.{ℕ, ◌+◌, ◌-◌, ◌≡◌, refl, true, false, List, [], ◌∷◌, ◌++◌, none, some, arith}
use raceway.Text.{Text, ◌==◌}
use raceway.Json.{Fields}
use raceway.Web.App.Details.{
  start as no_details, FullTraceAnalysisData, Answer, answered, aborted, failed,
}
use raceway.Web.App.Details.Current.{Act, selects, answers, act_all, ShownOf, act_all-ShownOf}
use raceway.Web.App.Details.Loading.{act_all-not_loading}
use raceway.Web.App.TraceList.{start as no_list, TraceMetadata, TraceList}
use raceway.Web.App.TraceList.Pages.{
  IsAtPage, pages_from, more_times, serving, fetched, overtaken, more_times-pages, overtaken-skips,
}
use raceway.Web.App.Routes.{Uri}

-- The server's data of a trace.
abbrev data_of : Text → FullTraceAnalysisData
data_of id = record {
  trace_id = id;
  events = [];
  audit_trails = none;
  potential_races = some 2;
  analysis_anomalies = none;
  critical_path = some (record { trace_id = id; rest = Fields.end });
  anomalies = none;
  dependencies = none;
}

abbrev serves : Text → Answer
serves id = answered (some (data_of id))

abbrev trace_a : Text
trace_a = b'a' ∷ []

abbrev trace_b : Text
trace_b = b'b' ∷ []

-- Two selections; the silent answer for the first trace comes after the second selection.
abbrev two_selections : List Act
two_selections =
    selects (some trace_a) ∷ selects (some trace_b) ∷ answers 3 serves ∷ answers 0 serves ∷ []

act_all-ShownOf_example : ShownOf trace_b (act_all two_selections no_details)
unfolding act_all ◌==◌
act_all-ShownOf_example =
    act_all-ShownOf two_selections trace_b ((λ id. (refl, tt)), ((λ id. (refl, tt)), tt)) refl

abbrev all_answered : List Act
all_answered =
    selects (some trace_a)
    ∷ selects none
    ∷ answers 1 (λ id. aborted)
    ∷ answers 0 (λ id. failed [])
    ∷ []

act_all-not_loading_example : (act_all all_answered no_details).loading ≡ false
unfolding act_all ◌==◌
act_all-not_loading_example = act_all-not_loading all_answered refl

-- Page `n` has one trace with `n` events.
abbrev page_with : ℕ → List TraceMetadata
page_with n =
    record {
      trace_id = n ∷ [];
      event_count = n;
      first_timestamp = [];
      last_timestamp = [];
      service_count = 0;
      services = [];
    }
    ∷ []

more_times-pages_example :
    IsAtPage 4
      (2 + 1)
      (pages_from page_with 1 3)
      (more_times 2 (serving 4 4 page_with) (fetched (serving 4 4 page_with) no_list))
more_times-pages_example = more_times-pages 2 4 4 page_with no_list (omega arith) refl

abbrev at_page_two : TraceList
at_page_two = record no_list {
  traces = page_with 1 ++ page_with 2;
  current_page = 2;
  has_more_traces = true;
}

overtaken-skips_example :
    IsAtPage 4
      (2 + 1)
      (page_with 1 ++ page_with (2 + 1))
      (overtaken (serving 4 4 page_with) at_page_two)
overtaken-skips_example =
    overtaken-skips 2 4 4 page_with (page_with 1 ++ page_with 2) at_page_two (omega arith)
      (record { traces = refl; page = refl; more_there = refl; idle = refl })

-- An encoding that moves the slash away.
abbrev shift : Text → Text
shift [] = []
shift (c ∷ s) = (c + 48) ∷ shift s

abbrev shift_back : Text → Text
shift_back [] = []
shift_back (c ∷ s) = (c - 48) ∷ shift_back s

abbrev shifted : Uri
shifted = record { encode = shift; decode = shift_back }
