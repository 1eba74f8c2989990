-- ===== src/Web/Playback/Ends.antt =====
-- Playback ends at the last event (web/src/components/views/debugger/CausalDebuggerView.tsx).
use raceway.Prelude.{
  ℕ, zero, suc, ◌+◌, ◌-◌, ◌≤◌, pos, ◌≡◌, refl, ap, ◌∙◌, true, false, arith, length, Bool-cases, inl,
  inr, ltb, ltb→lt,
}
use raceway.Web.Playback.{Debugger, tick}
use raceway.Web.Playback.Bounds.{IsAt, tick-advances, tick-ends, tick-off}

unfoldable tick_times : ℕ → Debugger → Debugger
tick_times zero d = d
tick_times (suc n) d = tick_times n (tick d)

-- The debugger at the last of its events, with the playback off.
abbrev at_last : Debugger → Debugger
at_last d = record d { current_index = pos (length d.sorted_events_of - 1); is_playing = false }

idle : (n : ℕ) (d : Debugger) → d.is_playing ≡ false → tick_times n d ≡ d
unfolding tick_times
idle zero d off = refl
idle (suc n) d off = ap (tick_times n) (tick-off d off) ∙ idle n d off

-- While the debugger plays at position `i` of a list, any number of ticks that is enough to pass
-- through the rest of the list leaves it at the last event with the playback off.
tick_times-at_last :
    (n i : ℕ) (d : Debugger)
    → IsAt d i
    → d.is_playing ≡ true
    → length d.sorted_events_of ≤ i + n
    → tick_times n d ≡ at_last d
unfolding tick_times
tick_times-at_last zero i d at on le = absurd (omega (arith, at.1, le))
tick_times-at_last (suc n) i d at on le =
    elim (Bool-cases (ltb (i + 1) (length d.sorted_events_of))) [
      | inl before ↦
          let lt = ltb→lt (i + 1) (length d.sorted_events_of) before in
          ap (tick_times n) (tick-advances d i at on lt)
          ∙ tick_times-at_last n (i + 1) (record d { current_index = pos (i + 1) }) (refl, lt) on
              (omega (arith, le))
      | inr last ↦
          let stops = tick-ends d i at on (ground (arith, last)) in
          let here = at.0 ∙ ap pos (ground (arith, last, at.1)) in
          ap (tick_times n)
            (stops ∙ ap (λ z. record d { current_index = z; is_playing = false }) here)
          ∙ idle n (at_last d) refl
    ]
