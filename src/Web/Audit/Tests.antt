-- ===== src/Web/Audit/Tests.antt =====
-- The variables of few events, and a player of two accesses
-- (web/src/components/views/audit/AuditTrailView.tsx).
use raceway.Prelude.{ℕ, ◌≡◌, refl, pos, true, false, List, [], ◌∷◌, some, map, get_elem?, arith}
use raceway.Text.{Text, codes, ◌==◌}
use raceway.Json.{Json, field, end, str, obj, num, null}
use raceway.Web.Types.{Event, VariableAccess}
use raceway.Web.Tests.{first, second}
use raceway.Web.Audit.{variable_summaries}
use raceway.Web.Audit.Player.{Trails, AuditTrailData, opened, current_access, data_of}
use raceway.Web.Audit.States.{state_of, state_at_current_step}
use raceway.Web.Audit.Reached.{Act, key, selects, advances, receives, act_all, act_all-state_at}

abbrev balance : Text
balance = b'b' ∷ []

abbrev change : Text → Json
unfolding codes
change access =
    obj (field (codes "variable") (str balance) (field (codes "access_type") (str access) end))

abbrev trace : List Event
unfolding codes change
trace =
    record first { kind = field (codes "StateChange") (change (codes "Read")) end }
    ∷ record second { kind = field (codes "StateChange") (change (codes "Write")) end }
    ∷ []

balance-counts :
    map {B = Text × (ℕ × ℕ)}
      (λ s. (s.name, (s.read_count, s.write_count)))
      (variable_summaries trace)
    ≡ (balance, (1, 1)) ∷ []
unfolding variable_summaries trace ◌==◌
balance-counts = refl

abbrev access : Text → ℕ → VariableAccess
access id value = record {
  event_id = id;
  timestamp = [];
  thread_id = b'x' ∷ [];
  service_name = b's' ∷ [];
  access_type = b'W' ∷ [];
  old_value = null;
  new_value = num value;
  location = [];
  has_causal_link_to_previous = true;
  is_race = false;
}

abbrev trails : Trails
trails = (balance, access first.id 5 ∷ access second.id 7 ∷ []) ∷ []

abbrev acts : List Act
unfolding codes
acts = selects balance ∷ key (codes " ") ∷ advances ∷ []

abbrev shown : AuditTrailData
shown = record {
  trace_id = b't' ∷ [];
  variable = balance;
  accesses = access first.id 5 ∷ access second.id 7 ∷ [];
}

playing-at_second : (act_all acts (opened (b't' ∷ []) trails)).current_step ≡ pos 1
unfolding act_all acts ◌==◌
playing-at_second = refl

-- When the same trails are received again, the player goes back to the first step.
received-reset :
    (act_all
      (receives (b't' ∷ []) trails ∷ [])
      (act_all acts (opened (b't' ∷ []) trails))).current_step
    ≡ pos 0
unfolding act_all acts ◌==◌
received-reset = refl

act_all-state_at_example :
    (i : ℕ) × (a : VariableAccess) × ((act_all acts (opened (b't' ∷ []) trails)).current_step
      ≡ pos i)
    × (get_elem? shown.accesses i ≡ some a)
    × (current_access shown (act_all acts (opened (b't' ∷ []) trails)) ≡ some a)
    × (state_at_current_step (act_all acts (opened (b't' ∷ []) trails))
        ≡ state_of shown.variable true a ∷ [])
unfolding act_all acts data_of ◌==◌
act_all-state_at_example = act_all-state_at (b't' ∷ []) trails acts shown refl (omega arith)
