-- ===== src/Web/Audit/Player.antt =====
-- web/src/components/views/audit/AuditTrailView.tsx: the selected variable and the steps through its
-- accesses. `data`, a new object whenever it is computed again, stands for its effect: the step and
-- the playback are reset. The width of the bar that is clicked is left out: a click on it is the
-- step that it computes.
use raceway.Prelude.{
  ℕ, ℤ, pos, pred_int, succ_int, leb_int, Bool, true, false, not, List, [], ◌∷◌, Option, none, some,
  map, length, get_elem?, if◌then◌else◌,
}
use raceway.Text.{Text, codes, ◌==◌, is_truthy}
use raceway.Maps.{contains, get}
use raceway.Web.Types.{VariableAccess}
use raceway.Web.Audit.{VariableSummary}

pub record AuditTrailData : Type 0 where
  pub trace_id : Text
  pub variable : Text
  pub accesses : List VariableAccess

abbrev pub Trails : Type 0
Trails = List (Text × List VariableAccess)

-- The props that the player reads, and its state.
pub record Player : Type 0 where
  pub audit_trails : Trails
  pub trace_id : Text
  pub selected_variable : Option Text
  pub current_step : ℤ
  pub is_playing : Bool

abbrev pub opened : Text → Trails → Player
opened trace_id trails = record {
  audit_trails = trails;
  trace_id = trace_id;
  selected_variable = none;
  current_step = pos 0;
  is_playing = false;
}

-- Math.min and Math.max
unfoldable pub min_int : ℤ → ℤ → ℤ
unfolding leb_int
min_int a b = if leb_int a b then a else b

unfoldable pub max_int : ℤ → ℤ → ℤ
unfolding leb_int
max_int a b = if leb_int a b then b else a

-- data
unfoldable pub data_of : Player → Option AuditTrailData
unfolding get
data_of p = elim p.selected_variable [
  | none ↦ none
  | some variable ↦
      if is_truthy variable
      then elim (get variable p.audit_trails) [
        | none ↦ none
        | some accesses ↦
            some (record { trace_id = p.trace_id; variable = variable; accesses = accesses })
      ]
      else none
]

-- data.accesses.length - 1
abbrev pub last_step : AuditTrailData → ℤ
last_step d = pred_int (pos (length d.accesses))

abbrev pub reset : Player → Player
reset p = record p { current_step = pos 0; is_playing = false }

-- The second state after the first, with the effect on data, which is not run where both are null.
unfoldable pub with_data_changed : Player → Player → Player
unfolding data_of
with_data_changed p q = elim (data_of p) [
  | some d ↦ reset q
  | none ↦ elim (data_of q) [ some d ↦ reset q | none ↦ q ]
]

abbrev pub is_selected : Text → Player → Bool
is_selected variable p = elim p.selected_variable [ none ↦ false | some v ↦ v == variable ]

unfoldable pub handle_variable_select : Text → Player → Player
unfolding with_data_changed
handle_variable_select variable p =
    if is_selected variable p
    then p
    else with_data_changed p (record p { selected_variable = some variable })

-- new props
unfoldable pub receive : Text → Trails → Player → Player
unfolding with_data_changed
receive trace_id trails p =
    with_data_changed p (record p { trace_id = trace_id; audit_trails = trails })

-- !selectedVariable
abbrev pub is_unselected : Player → Bool
is_unselected p = elim p.selected_variable [ none ↦ true | some v ↦ not (is_truthy v) ]

-- The highlighted variable of the URL, if it is one of the variables, or else the first.
unfoldable pub choice : Option Text → VariableSummary → List VariableSummary → Text
unfolding contains
choice none s more = s.name
choice (some name) s more =
    if is_truthy name
    then (if contains name (map (λ t. t.name) (s ∷ more)) then name else s.name)
    else s.name

-- the effect that selects a variable
unfoldable pub auto_select : Option Text → List VariableSummary → Player → Player
unfolding handle_variable_select choice
auto_select highlight [] p = p
auto_select highlight (s ∷ more) p =
    if is_unselected p then handle_variable_select (choice highlight s more) p else p

unfoldable pub advance_data : AuditTrailData → Player → Player
unfolding leb_int pred_int
advance_data d p =
    if not p.is_playing
    then p
    else if leb_int (last_step d) p.current_step
    then record p { is_playing = false }
    else p

-- the effect that stops the playback at the end
unfoldable pub stop_at_end : Player → Player
unfolding advance_data data_of
stop_at_end p = elim (data_of p) [ none ↦ p | some d ↦ advance_data d p ]

-- The callback of the interval, which is set while the playback goes on.
unfoldable pub advance : Player → Player
unfolding data_of leb_int succ_int pred_int min_int
advance p = elim (data_of p) [
  | none ↦ p
  | some d ↦
      if not p.is_playing
      then p
      else if leb_int (last_step d) p.current_step
      then p
      else record p { current_step = min_int (succ_int p.current_step) (last_step d) }
]

unfoldable pub step_back : Player → Player
unfolding pred_int max_int
step_back p = record p { current_step = max_int (pos 0) (pred_int p.current_step) }

unfoldable pub step_forward : AuditTrailData → Player → Player
unfolding succ_int pred_int min_int
step_forward d p = record p { current_step = min_int (last_step d) (succ_int p.current_step) }

abbrev pub toggle : Player → Player
toggle p = record p { is_playing = not p.is_playing }

abbrev pub step_home : Player → Player
step_home p = record p { current_step = pos 0 }

unfoldable pub step_end : AuditTrailData → Player → Player
unfolding pred_int
step_end d p = record p { current_step = last_step d }

-- handleKeyDown, outside input fields
unfoldable pub handle_key_down : Text → Player → Player
unfolding codes data_of step_back step_forward step_end
handle_key_down key p = elim (data_of p) [
  | none ↦ p
  | some d ↦
      if key == codes "ArrowLeft"
      then step_back p
      else if key == codes "ArrowRight"
      then step_forward d p
      else if key == codes " "
      then toggle p
      else if key == codes "Home"
      then step_home p
      else if key == codes "End"
      then step_end d p
      else p
]

-- data.accesses[currentStep] || null
unfoldable pub current_access : AuditTrailData → Player → Option VariableAccess
current_access d p = elim p.current_step [ pos i ↦ get_elem? d.accesses i | _ ↦ none ]

pub data Button : Type 0 where
  home back play forward last : Button

unfoldable pub press : Button → AuditTrailData → Player → Player
unfolding step_back step_forward step_end
press home d p = step_home p
press back d p = step_back p
press play d p = toggle p
press forward d p = step_forward d p
press last d p = step_end d p

-- The buttons are there while there is an access at the step. Those that are disabled would do nothing.
unfoldable pub click : Button → Player → Player
unfolding data_of current_access press
click button p = elim (data_of p) [
  | none ↦ p
  | some d ↦ elim (current_access d p) [ none ↦ p | some a ↦ press button d p ]
]

-- A click on the bar at the step.
unfoldable pub scrub : ℕ → Player → Player
unfolding data_of current_access pred_int max_int min_int
scrub step p = elim (data_of p) [
  | none ↦ p
  | some d ↦ elim (current_access d p) [
    | none ↦ p
    | some a ↦ record p { current_step = max_int (pos 0) (min_int (pos step) (last_step d)) }
  ]
]

-- A click on an access in the view of them, if there is one at the index.
unfoldable pub step_change : ℕ → Player → Player
unfolding data_of
step_change index p = elim (data_of p) [
  | none ↦ p
  | some d ↦ elim (get_elem? d.accesses index) [
    | none ↦ p
    | some a ↦ record p { current_step = pos index }
  ]
]
