-- ===== src/Web/Audit/States.antt =====
-- web/src/components/views/audit/AuditTrailView.tsx: the state of the selected variable at a step.
use raceway.Prelude.{
  ℕ, suc, ℤ, pos, leb_int, Bool, false, List, [], ◌∷◌, none, some, map, if◌then◌else◌,
}
use raceway.Text.{Text}
use raceway.Json.{Json}
use raceway.Maps.{set}
use raceway.Web.Types.{VariableAccess}
use raceway.Web.Audit.Player.{Player, data_of}

pub record VariableState : Type 0 where
  pub name : Text
  pub value : Json
  pub last_modified_by : Text
  pub last_modified_at : Text
  pub is_changed : Bool
  pub access_type : Text

abbrev pub state_of : Text → Bool → VariableAccess → VariableState
state_of variable is_changed a = record {
  name = variable;
  value = a.new_value;
  last_modified_by = a.thread_id;
  last_modified_at = a.timestamp;
  is_changed = is_changed;
  access_type = a.access_type;
}

-- i === currentStep
unfoldable pub is_step : ℕ → ℤ → Bool
unfolding leb_int
is_step i step = if leb_int (pos i) step then leb_int step (pos i) else false

-- The loop over the accesses, from the index on, of stateAtCurrentStep, which the view computes but
-- does not show.
unfoldable pub states_from :
    Text → ℤ → ℕ → List VariableAccess → List (Text × VariableState) → List (Text × VariableState)
unfolding leb_int set is_step
states_from variable step i [] m = m
states_from variable step i (a ∷ rest) m =
    let later =
      states_from variable step (suc i) rest
        (set variable (state_of variable (is_step i step) a) m) in
    if leb_int (pos i) step then later else m

unfoldable pub state_at_current_step : Player → List VariableState
unfolding data_of states_from
state_at_current_step p = elim (data_of p) [
  | none ↦ []
  | some d ↦ map (λ e. e.1) (states_from d.variable p.current_step 0 d.accesses [])
]
