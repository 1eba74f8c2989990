-- ===== src/Web/Audit/Steps.antt =====
-- The step is that of an access (web/src/components/views/audit/AuditTrailView.tsx).
use raceway.Prelude.{
  ℕ, suc, ◌-◌, ◌<◌, ◌≡◌, refl, sym, subst, pos, ℤ, pred_int, succ_int, leb_int, inl, inr, false,
  not, List, [], ◌∷◌, Option, some, length, get_elem?, get_elem?-length, if-both, arith,
  Option-cases,
}
use raceway.Text.{Text, codes, ◌==◌}
use raceway.Web.Audit.{VariableSummary}
use raceway.Web.Audit.Bounds.{
  IsBelow, back_IsBelow, last_IsBelow, min_IsBelow, min_IsBelow_turned, max_IsBelow,
}
use raceway.Web.Audit.Player.{
  Player, AuditTrailData, Trails, data_of, reset, min_int, max_int, last_step, with_data_changed,
  handle_variable_select, receive, auto_select, choice, is_selected, is_unselected, advance_data,
  stop_at_end, advance, step_back, step_forward, toggle, step_home, step_end, handle_key_down,
  current_access, Button, home, back, play, forward, last, press, click, scrub, step_change,
}

-- The step is that of an access, if there are accesses.
abbrev pub InRange : Player → Type 0
InRange p =
    (d : AuditTrailData)
    → data_of p ≡ some d
    → 0 < length d.accesses
    → (i : ℕ) × (p.current_step ≡ pos i) × (i < length d.accesses)

-- A new step below the bound, for the same data.
moved :
    (p : Player) (z : ℤ)
    → ((d : AuditTrailData)
        → data_of p ≡ some d
        → 0 < length d.accesses
        → IsBelow (length d.accesses) z)
    → InRange (record p { current_step = z })
unfolding data_of
moved p z h = h

reset-InRange : (p : Player) → InRange (reset p)
unfolding data_of
reset-InRange p d e lt = (0, refl, lt)

with_data_changed-InRange : (p q : Player) → InRange (with_data_changed p q)
unfolding with_data_changed
with_data_changed-InRange p q = elim (Option-cases (data_of p)) [
  | inr (d, e) ↦ rw (with_data_changed, e) (reset-InRange q)
  | inl e ↦ elim (Option-cases (data_of q)) [
    | inr (d, f) ↦ rw (with_data_changed, e, f) (reset-InRange q)
    | inl f ↦ rw (with_data_changed, e, f) (λ d g lt. absurd (ground (arith, f, g)))
  ]
]

module _ (p : Player) (in_range : InRange p) where
  step_back-InRange : InRange (step_back p)
  unfolding step_back
  step_back-InRange = moved p (max_int (pos 0) (pred_int p.current_step)) (λ d e lt.
      let (i, at, within) = in_range d e lt in
      subst (λ z. IsBelow (length d.accesses) (max_int (pos 0) (pred_int z))) (sym at)
        (back_IsBelow (length d.accesses) i within))

  module _ (d : AuditTrailData) (here : data_of p ≡ some d) where
    -- What holds for these data holds for those that the player has.
    moved_here :
        (z : ℤ)
        → (0 < length d.accesses → IsBelow (length d.accesses) z)
        → InRange (record p { current_step = z })
    moved_here z h = moved p z (λ c e lt.
        let same : d ≡ c = ground (arith, here, e) in
        subst (λ (x : AuditTrailData). 0 < length x.accesses → IsBelow (length x.accesses) z) same h
          lt)

    step_forward-InRange : InRange (step_forward d p)
    unfolding step_forward succ_int
    step_forward-InRange = moved_here (min_int (last_step d) (succ_int p.current_step)) (λ lt.
        let (i, at, within) = in_range d here lt in
        subst (λ z. IsBelow (length d.accesses) (min_int (last_step d) (succ_int z))) (sym at)
          (min_IsBelow_turned (length d.accesses) (suc i) lt))

    step_home-InRange : InRange (step_home p)
    step_home-InRange = moved_here (pos 0) (λ lt. (0, refl, lt))

    step_end-InRange : InRange (step_end d p)
    unfolding step_end
    step_end-InRange = moved_here (last_step d) (λ lt.
        let end = last_IsBelow (length d.accesses) lt in (length d.accesses - 1, end.0, end.1))

    toggle-InRange : InRange (toggle p)
    unfolding data_of
    toggle-InRange = in_range

    press-InRange : (b : Button) → InRange (press b d p)
    unfolding press
    press-InRange home = step_home-InRange
    press-InRange back = step_back-InRange
    press-InRange play = toggle-InRange
    press-InRange forward = step_forward-InRange
    press-InRange last = step_end-InRange

    scrubbed-InRange :
        (step : ℕ)
        → InRange (record p { current_step = max_int (pos 0) (min_int (pos step) (last_step d)) })
    scrubbed-InRange step = moved_here (max_int (pos 0) (min_int (pos step) (last_step d))) (λ lt.
        max_IsBelow (length d.accesses) (min_int (pos step) (last_step d))
          (min_IsBelow (length d.accesses) step lt))

    advanced-InRange :
        InRange (record p { current_step = min_int (succ_int p.current_step) (last_step d) })
    unfolding succ_int
    advanced-InRange = moved_here (min_int (succ_int p.current_step) (last_step d)) (λ lt.
        let (i, at, within) = in_range d here lt in
        subst (λ z. IsBelow (length d.accesses) (min_int (succ_int z) (last_step d))) (sym at)
          (min_IsBelow (length d.accesses) (suc i) lt))

  pub handle_key_down-InRange : (key : Text) → InRange (handle_key_down key p)
  unfolding handle_key_down
  handle_key_down-InRange key = elim (Option-cases (data_of p)) [
    | inl e ↦ rw (handle_key_down, e) in_range
    | inr (d, e) ↦
        rw (handle_key_down, e)
          (if-both InRange (key == codes "ArrowLeft") (step_back p) _ step_back-InRange (
            if-both InRange (key == codes "ArrowRight") (step_forward d p) _
              (step_forward-InRange d e)
              (if-both InRange (key == codes " ") (toggle p) _ (toggle-InRange d e) (
                if-both InRange (key == codes "Home") (step_home p) _ (step_home-InRange d e) (
                  if-both InRange (key == codes "End") (step_end d p) p (step_end-InRange d e)
                    in_range)))))
  ]

  pub click-InRange : (b : Button) → InRange (click b p)
  unfolding click
  click-InRange b = elim (Option-cases (data_of p)) [
    | inl e ↦ rw (click, e) in_range
    | inr (d, e) ↦ elim (Option-cases (current_access d p)) [
      | inl f ↦ rw (click, e, f) in_range
      | inr (a, f) ↦ rw (click, e, f) (press-InRange d e b)
    ]
  ]

  pub scrub-InRange : (step : ℕ) → InRange (scrub step p)
  unfolding scrub
  scrub-InRange step = elim (Option-cases (data_of p)) [
    | inl e ↦ rw (scrub, e) in_range
    | inr (d, e) ↦ elim (Option-cases (current_access d p)) [
      | inl f ↦ rw (scrub, e, f) in_range
      | inr (a, f) ↦ rw (scrub, e, f) (scrubbed-InRange d e step)
    ]
  ]

  pub step_change-InRange : (index : ℕ) → InRange (step_change index p)
  unfolding step_change
  step_change-InRange index = elim (Option-cases (data_of p)) [
    | inl e ↦ rw (step_change, e) in_range
    | inr (d, e) ↦ elim (Option-cases (get_elem? d.accesses index)) [
      | inl f ↦ rw (step_change, e, f) in_range
      | inr (a, f) ↦
          rw (step_change, e, f)
            (moved_here d e (pos index)
              (λ lt. (index, refl, get_elem?-length d.accesses index a f)))
    ]
  ]

  pub stop_at_end-InRange : InRange (stop_at_end p)
  unfolding stop_at_end advance_data
  stop_at_end-InRange = elim (Option-cases (data_of p)) [
    | inl e ↦ rw (stop_at_end, e) in_range
    | inr (d, e) ↦
        rw (stop_at_end, e)
          (if-both InRange (not p.is_playing) p _ in_range (
            if-both InRange (leb_int (last_step d) p.current_step) (record p { is_playing = false })
              p in_range in_range))
  ]

  pub advance-InRange : InRange (advance p)
  unfolding advance
  advance-InRange = elim (Option-cases (data_of p)) [
    | inl e ↦ rw (advance, e) in_range
    | inr (d, e) ↦
        rw (advance, e)
          (if-both InRange (not p.is_playing) p _ in_range (
            if-both InRange (leb_int (last_step d) p.current_step) p _ in_range
              (advanced-InRange d e)))
  ]

  pub handle_variable_select-InRange :
      (variable : Text) → InRange (handle_variable_select variable p)
  unfolding handle_variable_select
  handle_variable_select-InRange variable =
      if-both InRange (is_selected variable p) p _ in_range
        (with_data_changed-InRange p (record p { selected_variable = some variable }))

  pub receive-InRange : (trace_id : Text) (trails : Trails) → InRange (receive trace_id trails p)
  unfolding receive
  receive-InRange trace_id trails =
      with_data_changed-InRange p (record p { trace_id = trace_id; audit_trails = trails })

  pub auto_select-InRange :
      (highlight : Option Text) (summaries : List VariableSummary)
      → InRange (auto_select highlight summaries p)
  unfolding auto_select
  auto_select-InRange highlight [] = in_range
  auto_select-InRange highlight (s ∷ more) =
      if-both InRange (is_unselected p) (handle_variable_select (choice highlight s more) p) p
        (handle_variable_select-InRange (choice highlight s more)) in_range
