-- ===== src/Web/Playback/Bounds.antt =====
-- The debugger's position stays in the list
-- (web/src/components/views/debugger/CausalDebuggerView.tsx).
use raceway.Prelude.{
  ℕ, zero, suc, ◌+◌, ◌-◌, ◌≤◌, ◌<◌, pos, pred_int, succ_int, leb_int, ◌≡◌, refl, sym, subst,
  if-both, ap, ltb, leb, ltb→lt, true, false, List, [], ◌∷◌, some, arith, length, if◌then◌else◌,
  Option-cases, Bool-cases, inl, inr,
}
use raceway.Text.{Text, ◌==◌}
use raceway.Web.Types.{Event}
use raceway.Web.Playback.{
  Debugger, last_index, tick, step_back, step_forward, jump_to_start, jump_to_end, toggle_playback,
  speed_change, scrub, find_event, event_click, debugger_key,
}

-- Everything that happens to the view, while its events stay.
pub data Act : Type 0 where
  ticks : Act
  key : Text → Act
  speed clicks : Text → Act
  scrubs : ℕ → Act

unfoldable pub act : Act → Debugger → Debugger
unfolding tick debugger_key speed_change event_click scrub
act ticks d = tick d
act (key k) d = debugger_key k d
act (speed s) d = speed_change s d
act (clicks id) d = event_click id d
act (scrubs i) d = scrub i d

unfoldable pub act_all : List Act → Debugger → Debugger
unfolding act
act_all [] d = d
act_all (a ∷ acts) d = act_all acts (act a d)

-- The position is that of an event.
abbrev pub IsAt : Debugger → ℕ → Type 0
IsAt d i = (d.current_index ≡ pos i) × (i < length d.sorted_events_of)

-- The position is that of one of the given events.
abbrev pub InRange : List Event → Debugger → Type 0
InRange es d = (d.sorted_events_of ≡ es) × (i : ℕ) × (d.current_index ≡ pos i) × (i < length es)

-- Scrubs lead into a list of `n` events.
abbrev pub ScrubsBelow : ℕ → List Act → Type 0
ScrubsBelow n [] = Unit
ScrubsBelow n (scrubs i ∷ acts) = (i < n) × ScrubsBelow n acts
ScrubsBelow n (_ ∷ acts) = ScrubsBelow n acts

-- One constructor above, the other below.
pred-pos : (n i : ℕ) → i < n → pred_int (pos n) ≡ pos (n - 1)
unfolding pred_int
pred-pos zero i lt = absurd (omega (arith, lt))
pred-pos (suc n) i lt = ap pos (omega arith)

module _ (d : Debugger) where
  pub tick-off : d.is_playing ≡ false → tick d ≡ d
  unfolding tick
  tick-off off = simp off refl

module _ (d : Debugger) (i : ℕ) (at : IsAt d i) where
  pub last_index-pos : last_index d ≡ pos (length d.sorted_events_of - 1)
  last_index-pos = pred-pos (length d.sorted_events_of) i at.1

  -- A position that is not the last is followed by the next, the last is kept, and playback ends.
  pub tick-advances :
      d.is_playing ≡ true
      → i + 1 < length d.sorted_events_of
      → tick d ≡ record d { current_index = pos (i + 1) }
  unfolding tick leb_int succ_int
  tick-advances on lt = simp (on, at.0, last_index-pos) (ground arith)

  pub tick-ends :
      d.is_playing ≡ true
      → length d.sorted_events_of ≤ i + 1
      → tick d ≡ record d { is_playing = false }
  unfolding tick leb_int succ_int
  tick-ends on le = simp (on, at.0, last_index-pos) (ground arith)

  step_back-InRange : InRange d.sorted_events_of (step_back d)
  unfolding step_back leb_int pred_int
  step_back-InRange = (refl, i - 1, rw (step_back, at.0) (back i), omega (arith, at.1))
    where
      back :
          (j : ℕ)
          → (if leb_int (pred_int (pos j)) (pos 0) then pos 0 else pred_int (pos j)) ≡ pos (j - 1)
      back zero = refl
      back (suc zero) = ground arith
      back (suc (suc k)) = ground arith

  step_forward-InRange : InRange d.sorted_events_of (step_forward d)
  unfolding step_forward leb_int succ_int
  step_forward-InRange = elim (Bool-cases (leb (i + 1) (length d.sorted_events_of - 1))) [
    | inl le ↦
        (refl, i + 1, simp (at.0, last_index-pos) (ground (arith, le)), ground (arith, le, at.1))
    | inr gt ↦ (
      refl,
      length d.sorted_events_of - 1,
      simp (at.0, last_index-pos) (ground (arith, gt)),
      omega (arith, at.1),
    )
  ]

  tick-InRange : InRange d.sorted_events_of (tick d)
  tick-InRange = elim (Bool-cases d.is_playing) [
    | inr off ↦ subst (InRange d.sorted_events_of) (sym (tick-off d off)) (refl, i, at.0, at.1)
    | inl on ↦ elim (Bool-cases (ltb (i + 1) (length d.sorted_events_of))) [
      | inl lt ↦
          subst (InRange d.sorted_events_of) (sym (tick-advances on (ltb→lt _ _ lt)))
            (refl, i + 1, refl, ltb→lt _ _ lt)
      | inr ge ↦
          subst (InRange d.sorted_events_of) (sym (tick-ends on (ground (arith, ge))))
            (refl, i, at.0, at.1)
    ]
  ]

  jump_to_start-InRange : InRange d.sorted_events_of (jump_to_start d)
  unfolding jump_to_start
  jump_to_start-InRange = (refl, 0, refl, omega (arith, at.1))

  jump_to_end-InRange : InRange d.sorted_events_of (jump_to_end d)
  unfolding jump_to_end
  jump_to_end-InRange = (refl, length d.sorted_events_of - 1, last_index-pos, omega (arith, at.1))

  key-InRange : (k : Text) → InRange d.sorted_events_of (debugger_key k d)
  unfolding debugger_key toggle_playback
  key-InRange k =
      let R = InRange d.sorted_events_of in
      if-both R _ _ _ step_back-InRange (
        if-both R _ _ _ step_forward-InRange (
          if-both R _ _ _ (refl, i, at.0, at.1)
            (if-both R _ _ _ jump_to_start-InRange
              (if-both R _ _ _ jump_to_end-InRange (refl, i, at.0, at.1)))))

find_event-bound : (id : Text) (es : List Event) (i : ℕ) → find_event id es ≡ some i → i < length es
unfolding find_event
find_event-bound id [] i h = absurd (ground arith)
find_event-bound id (e ∷ es) i h = elim (Bool-cases (e.id == id)) [
  | inl is ↦ ground (arith, is, h)
  | inr other ↦ elim (Option-cases (find_event id es)) [
    | inl missing ↦ absurd (ground (arith, other, missing, h))
    | inr (j, found) ↦ ground (arith, other, found, h, find_event-bound id es j found)
  ]
]

act-InRange :
    (a : Act) (d : Debugger)
    → InRange d.sorted_events_of d
    → ScrubsBelow (length d.sorted_events_of) (a ∷ [])
    → InRange d.sorted_events_of (act a d)
unfolding act speed_change event_click scrub
act-InRange ticks d (same, i, at, lt) ok = tick-InRange d i (at, lt)
act-InRange (key k) d (same, i, at, lt) ok = key-InRange d i (at, lt) k
act-InRange (speed s) d (same, i, at, lt) ok = (refl, i, at, lt)
act-InRange (scrubs j) d (same, i, at, lt) ok = (refl, j, refl, ok.0)
act-InRange (clicks id) d (same, i, at, lt) ok =
    elim (Option-cases (find_event id d.sorted_events_of)) [
      | inl e ↦ rw (e, act, event_click) (refl, i, at, lt)
      | inr (j, e) ↦
          rw (e, act, event_click) (refl, j, refl, find_event-bound id d.sorted_events_of j e)
    ]

ScrubsBelow-parts :
    (n : ℕ) (a : Act) (acts : List Act)
    → ScrubsBelow n (a ∷ acts)
    → ScrubsBelow n (a ∷ []) × ScrubsBelow n acts
ScrubsBelow-parts n ticks acts h = (tt, h)
ScrubsBelow-parts n (key k) acts h = (tt, h)
ScrubsBelow-parts n (speed s) acts h = (tt, h)
ScrubsBelow-parts n (clicks id) acts h = (tt, h)
ScrubsBelow-parts n (scrubs i) acts h = ((h.0, tt), h.1)

-- Once the debugger stands at an event, it stands at one of the same events after any ticks, keys,
-- clicks and changes of the speed, and scrubs to a position of the list.
pub act_all-InRange :
    (acts : List Act) (es : List Event) (d : Debugger)
    → InRange es d
    → ScrubsBelow (length es) acts
    → InRange es (act_all acts d)
unfolding act_all
act_all-InRange [] es d h ok = h
act_all-InRange (a ∷ acts) es d (same, i, at, lt) ok =
    let own : InRange d.sorted_events_of d =
      (refl, i, at, subst (λ l. i < length l) (sym same) lt) in
    let parts = ScrubsBelow-parts (length es) a acts ok in
    let step =
      act-InRange a d own (subst (λ l. ScrubsBelow (length l) (a ∷ [])) (sym same) parts.0) in
    act_all-InRange acts es (act a d) (subst (λ l. InRange l (act a d)) same step) parts.1
