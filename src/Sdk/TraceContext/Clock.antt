-- ===== src/Sdk/TraceContext/Clock.antt =====
-- The vector clock of sdks/typescript/src/trace-context.ts.
use raceway.Prelude.{◌+◌, Bool, false, ◌||◌, [], ◌∷◌, ◌++◌, if◌then◌else◌}
use raceway.Text.{Text, ◌==◌}
use raceway.Sdk.Types.{ClockVector}

-- { serviceName, instanceId }
pub record Component : Type 0 where
  pub service_name : Text
  pub instance_id : Text

unfoldable pub make_clock_component : Text → Text → Text
make_clock_component service instance_id = service ++ b'#' ∷ instance_id

unfoldable pub bump : Text → ClockVector → ClockVector
bump component [] = []
bump component ((id, value) ∷ vector) =
    let next = bump component vector in
    if id == component then (id, value + 1) ∷ next else (id, value) ∷ next

-- some(([id]) => id === component)
unfoldable pub has_component : Text → ClockVector → Bool
has_component component [] = false
has_component component ((id, value) ∷ vector) = id == component || has_component component vector

-- `updated` is set exactly if the component is in the vector
unfoldable pub increment_clock_vector : ClockVector → Component → ClockVector
unfolding bump has_component
increment_clock_vector vector options =
    let component = make_clock_component options.service_name options.instance_id in
    let next = bump component vector in
    if has_component component vector then next else next ++ (component, 1) ∷ []
