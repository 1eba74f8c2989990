-- ===== src/Web/Playback/Tests.antt =====
-- The debugger's playback on a short list of events
-- (web/src/components/views/debugger/CausalDebuggerView.tsx).
use raceway.Prelude.{refl, [], ◌∷◌, arith}
use raceway.Text.{codes}
use raceway.Web.Tests.{get_time, trace}
use raceway.Web.Layout.Timeline.{sorted_events}
use raceway.Web.Playback.{opened}
use raceway.Web.Playback.Bounds.{ticks, key, clicks, scrubs, act_all, InRange, act_all-InRange}

act_all-InRange_example : InRange (sorted_events get_time trace) (
    act_all
      (key (codes " ") ∷ ticks ∷ scrubs 2 ∷ clicks (codes "2") ∷ key (codes "ArrowLeft") ∷ [])
      (opened get_time trace))
unfolding sorted_events
act_all-InRange_example =
    act_all-InRange
      (key (codes " ") ∷ ticks ∷ scrubs 2 ∷ clicks (codes "2") ∷ key (codes "ArrowLeft") ∷ [])
      (sorted_events get_time trace) (opened get_time trace) (refl, 0, refl, omega arith)
      (omega arith, tt)
