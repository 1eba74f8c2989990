-- ===== src/Web/Audit/Reached.antt =====
-- What is shown at a step (web/src/components/views/audit/AuditTrailView.tsx).
use raceway.Prelude.{
  ℕ, zero, suc, ◌+◌, ◌<◌, ◌≡◌, refl, sym, ap, ap₂, subst, ◌∙◌, ◌⊎◌, pos, leb_int, leb, inl, inr,
  Bool, true, List, [], ◌∷◌, Option, some, map, length, get_elem?, get_elem?-some, arith,
  if◌then◌else◌,
}
use raceway.Text.{Text, eq_refl}
use raceway.Maps.{set}
use raceway.Web.Types.{VariableAccess}
use raceway.Web.Audit.{VariableSummary}
use raceway.Web.Audit.Player.{
  Player, AuditTrailData, current_access, Trails, Button, data_of, opened, handle_variable_select,
  receive, auto_select, stop_at_end, advance, handle_key_down, click, scrub, step_change,
}
use raceway.Web.Audit.States.{VariableState, state_of, is_step, states_from, state_at_current_step}
use raceway.Web.Audit.Steps.{
  InRange, handle_key_down-InRange, click-InRange, scrub-InRange, step_change-InRange,
  stop_at_end-InRange, advance-InRange, handle_variable_select-InRange, receive-InRange,
  auto_select-InRange,
}

-- Everything that happens to the player.
pub data Act : Type 0 where
  key : Text → Act
  clicks : Button → Act
  scrubs steps_to : ℕ → Act
  advances stops : Act
  selects : Text → Act
  selects_first : Option Text → List VariableSummary → Act
  receives : Text → Trails → Act

unfoldable pub act : Act → Player → Player
unfolding handle_key_down click scrub step_change advance stop_at_end handle_variable_select
    auto_select receive
act (key k) p = handle_key_down k p
act (clicks b) p = click b p
act (scrubs step) p = scrub step p
act (steps_to i) p = step_change i p
act advances p = advance p
act stops p = stop_at_end p
act (selects v) p = handle_variable_select v p
act (selects_first highlight summaries) p = auto_select highlight summaries p
act (receives id trails) p = receive id trails p

unfoldable pub act_all : List Act → Player → Player
unfolding act
act_all [] p = p
act_all (a ∷ acts) p = act_all acts (act a p)

act-InRange : (a : Act) (p : Player) → InRange p → InRange (act a p)
unfolding act
act-InRange (key k) p h = handle_key_down-InRange p h k
act-InRange (clicks b) p h = click-InRange p h b
act-InRange (scrubs step) p h = scrub-InRange p h step
act-InRange (steps_to i) p h = step_change-InRange p h i
act-InRange advances p h = advance-InRange p h
act-InRange stops p h = stop_at_end-InRange p h
act-InRange (selects v) p h = handle_variable_select-InRange p h v
act-InRange (selects_first highlight summaries) p h = auto_select-InRange p h highlight summaries
act-InRange (receives id trails) p h = receive-InRange p h id trails

act_all-InRange : (acts : List Act) (p : Player) → InRange p → InRange (act_all acts p)
unfolding act_all
act_all-InRange [] p h = h
act_all-InRange (a ∷ acts) p h = act_all-InRange acts (act a p) (act-InRange a p h)

-- No entry, or one for the variable.
abbrev IsSingle : Text → List (Text × VariableState) → Type 0
IsSingle v m = (m ≡ []) ⊎ ((s : VariableState) × (m ≡ (v, s) ∷ []))

set-single :
    (v : Text) (t : VariableState) (m : List (Text × VariableState))
    → IsSingle v m
    → set v t m ≡ (v, t) ∷ []
unfolding set
set-single v t m (inl empty) = subst (λ l. set v t l ≡ (v, t) ∷ []) (sym empty) refl
set-single v t m (inr (s, one)) =
    subst (λ l. set v t l ≡ (v, t) ∷ []) (sym one) (simp (eq_refl v) refl)

past :
    (v : Text) (n k : ℕ) (accesses : List VariableAccess) (m : List (Text × VariableState))
    → n < k
    → states_from v (pos n) k accesses m ≡ m
unfolding states_from leb_int
past v n k [] m lt = refl
past v n k (a ∷ rest) m lt = ground (arith, lt)

is_step-same : (k n : ℕ) → n ≡ k → is_step k (pos n) ≡ true
unfolding is_step leb_int
is_step-same k n same = ground (arith, same)

states_from-last :
    (v : Text) (k j n : ℕ) (accesses : List VariableAccess) (a : VariableAccess)
    (m : List (Text × VariableState))
    → n ≡ k + j
    → get_elem? accesses j ≡ some a
    → IsSingle v m
    → states_from v (pos n) k accesses m ≡ (v, state_of v true a) ∷ []
unfolding states_from leb_int
states_from-last v k j n [] a m at h single = absurd (ground (arith, h))
states_from-last v k zero n (b ∷ rest) a m at h single =
    let next = set v (state_of v (is_step k (pos n)) b) m in
    let on : leb k n ≡ true = ground (arith, at) in
    let same : b ≡ a = ground (arith, h) in
    ap (λ (c : Bool). if c then states_from v (pos n) (suc k) rest next else m) on
    ∙ (past v n (suc k) rest next (omega (arith, at))
        ∙ (set-single v (state_of v (is_step k (pos n)) b) m single
            ∙ ap₂ (λ (c : Bool) (x : VariableAccess). (v, state_of v c x) ∷ [])
                (is_step-same k n (omega (arith, at))) same))
states_from-last v k (suc j) n (b ∷ rest) a m at h single =
    let t = state_of v (is_step k (pos n)) b in
    let on : leb k n ≡ true = ground (arith, at) in
    ap (λ (c : Bool). if c then states_from v (pos n) (suc k) rest (set v t m) else m) on
    ∙ (states_from-last v (suc k) j n rest a (set v t m) (omega (arith, at)) h
        (inr (t, set-single v t m single)))

-- Where the player has data with accesses, its step is that of one of them.
state_at-InRange :
    (p : Player) (d : AuditTrailData)
    → InRange p
    → data_of p ≡ some d
    → 0 < length d.accesses
    → (i : ℕ) × (a : VariableAccess) × (p.current_step ≡ pos i)
      × (get_elem? d.accesses i ≡ some a)
      × (current_access d p ≡ some a)
      × (state_at_current_step p ≡ state_of d.variable true a ∷ [])
unfolding state_at_current_step current_access
state_at-InRange p d in_range here lt =
    let (i, at, within) = in_range d here lt in
    let (a, found) = get_elem?-some d.accesses i within in
    (
      i,
      a,
      at,
      found,
      rw at found,
      rw (state_at_current_step, here, at)
          (ap (map (λ (e : Text × VariableState). e.1))
            (states_from-last d.variable 0 i i d.accesses a [] (omega arith) found (inl refl))),
    )

-- Whatever happens after the player is opened, new audit trails included: where the selected variable
-- has accesses, the step is that of one of them, which is the current access, and the state at the
-- step is what this access leaves, marked as changed.
pub act_all-state_at :
    (trace_id : Text) (trails : Trails) (acts : List Act) (d : AuditTrailData)
    → data_of (act_all acts (opened trace_id trails)) ≡ some d
    → 0 < length d.accesses
    → (i : ℕ) × (a : VariableAccess) × ((act_all acts (opened trace_id trails)).current_step
        ≡ pos i)
      × (get_elem? d.accesses i ≡ some a)
      × (current_access d (act_all acts (opened trace_id trails)) ≡ some a)
      × (state_at_current_step (act_all acts (opened trace_id trails))
          ≡ state_of d.variable true a ∷ [])
unfolding data_of
act_all-state_at trace_id trails acts d =
    state_at-InRange (act_all acts (opened trace_id trails)) d
      (act_all-InRange acts (opened trace_id trails) (λ c h lt. absurd (ground (arith, h))))
