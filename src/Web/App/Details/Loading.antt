-- ===== src/Web/App/Details/Loading.antt =====
-- The sign that a trace is loading goes away (web/src/App.tsx).
use raceway.Prelude.{
  ℕ, zero, suc, ◌≡◌, refl, sym, ◌∙◌, subst, if-both, Bool, true, false, not, ◌&&◌, List, [], ◌∷◌,
  ◌++◌, Option, none, some, get_elem?, if◌then◌else◌, arith, Option-cases, Bool-cases, ◌⊎◌, inl,
  inr,
}
use raceway.Text.{Text, eq_refl}
use raceway.Web.App.Details.{
  Answer, answered, aborted, failed, Request, Details, start, select, refresh, receive,
  fetch_trace_details, load_selected, is_current, finish, same_selection,
}
use raceway.Web.App.Details.Current.{
  Act, selects, refreshes, answers, act, act_all, drop_at, show_data-ids,
}

-- A request whose answer ends the loading.
abbrev IsLoud : Option Text → Request → Type 0
IsLoud current r = (r.silent ≡ false) × (current ≡ some r.trace_id)

abbrev AnyLoud : Option Text → List Request → Type 0
AnyLoud current [] = ⊥
AnyLoud current (r ∷ rs) = IsLoud current r ⊎ AnyLoud current rs

-- The invariant: while the sign is shown, a request is pending that ends it.
abbrev LoadsOn : Details → Type 0
LoadsOn s =
    ((id : Text) → s.selected_trace_id ≡ some id → s.loading_trace_id ≡ some id)
    × (s.loading ≡ true → AnyLoud s.loading_trace_id s.requests)

AnyLoud-append_left : (o : Option Text) (rs qs : List Request) → AnyLoud o rs → AnyLoud o (rs ++ qs)
AnyLoud-append_left o [] qs h = absurd h
AnyLoud-append_left o (r ∷ rs) qs (inl h) = inl h
AnyLoud-append_left o (r ∷ rs) qs (inr h) = inr (AnyLoud-append_left o rs qs h)

AnyLoud-append_right :
    (o : Option Text) (rs qs : List Request) → AnyLoud o qs → AnyLoud o (rs ++ qs)
AnyLoud-append_right o [] qs h = h
AnyLoud-append_right o (r ∷ rs) qs h = inr (AnyLoud-append_right o rs qs h)

AnyLoud-drop_at :
    (o : Option Text) (i : ℕ) (rs : List Request) (r : Request)
    → get_elem? rs i ≡ some r
    → AnyLoud o rs
    → IsLoud o r ⊎ AnyLoud o (drop_at i rs)
AnyLoud-drop_at o i [] r e h = absurd h
AnyLoud-drop_at o zero (q ∷ rs) r e (inl h) = inl (subst (IsLoud o) (ground (arith, e)) h)
AnyLoud-drop_at o zero (q ∷ rs) r e (inr h) = inr h
AnyLoud-drop_at o (suc i) (q ∷ rs) r e (inl h) = inr (inl h)
AnyLoud-drop_at o (suc i) (q ∷ rs) r e (inr h) = elim (AnyLoud-drop_at o i rs r e h) [
  | inl here ↦ inl here
  | inr there ↦ inr (inr there)
]

abbrev ends : Request → Option Text → Bool
ends r current = not r.silent && is_current r.trace_id current

-- What an answer of any kind does besides the data.
receive-frame :
    (r : Request) (a : Answer) (s : Details)
    → ((receive r a s).selected_trace_id ≡ s.selected_trace_id)
      × ((receive r a s).loading_trace_id ≡ s.loading_trace_id)
      × ((receive r a s).requests ≡ s.requests)
      × ((receive r a s).loading ≡ (if ends r s.loading_trace_id then false else s.loading))
unfolding receive finish
receive-frame r (answered d) s =
    let ids = show_data-ids r.trace_id d s in
    elim (Bool-cases (is_current r.trace_id s.loading_trace_id)) [
      | inr other ↦ rw (other, receive) (refl, refl, refl, refl)
      | inl same ↦ rw (same, receive) (ids.0, ids.1, ids.2, simp (ids.1, ids.3, same) refl)
    ]
receive-frame r aborted s = (refl, refl, refl, refl)
receive-frame r (failed m) s = elim (Bool-cases (is_current r.trace_id s.loading_trace_id)) [
  | inr other ↦ rw (other, receive) (refl, refl, refl, refl)
  | inl same ↦ rw (same, receive) (refl, refl, refl, refl)
]

ends-loud : (r : Request) (o : Option Text) → IsLoud o r → ends r o ≡ true
ends-loud r o (loud, cur) = simp (loud, cur) (eq_refl r.trace_id)

receive-LoadsOn :
    (i : ℕ) (r : Request) (a : Answer) (s : Details)
    → get_elem? s.requests i ≡ some r
    → LoadsOn s
    → LoadsOn (receive r a (record s { requests = drop_at i s.requests }))
receive-LoadsOn i r a s e (sel, loads) =
    let frame = receive-frame r a (record s { requests = drop_at i s.requests }) in
    (
      (λ id h. frame.1 ∙ sel id (sym frame.0 ∙ h)),
      (λ h.
          rw (frame.1, frame.2)
            (elim (Bool-cases (ends r s.loading_trace_id)) [
              | inl off ↦ absurd (ground (arith, h, frame.3, off))
              | inr on ↦
                  elim (AnyLoud-drop_at s.loading_trace_id i s.requests r e
                    (loads (ground (arith, h, frame.3, on)))) [
                      | inl loud ↦ absurd (ground (arith, on, ends-loud r s.loading_trace_id loud))
                      | inr later ↦ later
                    ]
            ])),
    )

refresh-LoadsOn : (s : Details) → LoadsOn s → LoadsOn (refresh s)
unfolding refresh fetch_trace_details
refresh-LoadsOn s (sel, loads) = elim (Option-cases s.selected_trace_id) [
  | inl none_ ↦ rw (none_, refresh) (sel, loads)
  | inr (id, e) ↦
      rw (e, refresh)
        (
          (λ i h. sym e ∙ h),
          (λ h.
              AnyLoud-append_left (some id) s.requests _
                (subst (λ o. AnyLoud o s.requests) (sel id e) (loads h))),
        )
]

select-LoadsOn : (id : Option Text) (s : Details) → LoadsOn s → LoadsOn (select id s)
unfolding select load_selected refresh fetch_trace_details
select-LoadsOn none s (sel, loads) =
    if-both LoadsOn (same_selection s.selected_trace_id none) _ _ (sel, loads)
      ((λ i h. absurd (ground (arith, h))), loads)
select-LoadsOn (some id) s h =
    if-both LoadsOn (same_selection s.selected_trace_id (some id)) _ _ h (
      (λ i e. e),
      (λ e.
          AnyLoud-append_right (some id)
            (s.requests ++ record { trace_id = id; silent = true } ∷ []) _ (inl (refl, refl))),
    )

act_all-LoadsOn : (acts : List Act) (s : Details) → LoadsOn s → LoadsOn (act_all acts s)
unfolding act_all act
act_all-LoadsOn [] s h = h
act_all-LoadsOn (selects id ∷ acts) s h = act_all-LoadsOn acts (select id s) (select-LoadsOn id s h)
act_all-LoadsOn (refreshes ∷ acts) s h = act_all-LoadsOn acts (refresh s) (refresh-LoadsOn s h)
act_all-LoadsOn (answers i server ∷ acts) s h =
    act_all-LoadsOn acts (act (answers i server) s) (elim (Option-cases (get_elem? s.requests i)) [
      | inl e ↦ rw (e, act) h
      | inr (r, e) ↦ rw (e, act) (receive-LoadsOn i r (server r.trace_id) s e h)
    ])

-- After any selections, refreshes and answers, in any order and of any kind, among them aborts and
-- failures, the application does not show that it is loading once no request is pending.
pub act_all-not_loading :
    (acts : List Act) → (act_all acts start).requests ≡ [] → (act_all acts start).loading ≡ false
act_all-not_loading acts done =
    let h =
      act_all-LoadsOn acts start
        ((λ i e. absurd (ground (arith, e))), (λ e. absurd (ground (arith, e)))) in
    elim (Bool-cases (act_all acts start).loading) [
      | inr off ↦ off
      | inl on ↦ absurd (subst (AnyLoud (act_all acts start).loading_trace_id) done (h.1 on))
    ]
