-- ===== src/Sdk/Runtime.antt =====
-- sdks/typescript/src/runtime.ts: the one instance that instrumented code uses. The environment's
-- variables are the record `Environment`, and the stack trace's location is an argument.
pub mod Single
pub mod Tests
use raceway.Prelude.{ℕ, Bool, true, false, not, Option, none, some, List, [], ◌∷◌, if◌then◌else◌}
use raceway.Text.{Text, codes, ◌==◌, or_else}
use raceway.Json.{Json, Fields}
use raceway.Sdk.Types.{AccessType, RacewayConfig, RacewayContext}
use raceway.Sdk.Raceway.Config.{Platform, Raceway, new_raceway}
use raceway.Sdk.Raceway.Session.{Session}
use raceway.Sdk.Raceway.Track.{track_state_change, track_function_call}

-- process.env
pub record Environment : Type 0 where
  pub raceway_debug : Option Text
  pub raceway_url : Option Text
  pub raceway_service_name : Option Text
  pub raceway_instance_id : Option Text
  pub node_env : Option Text
  pub raceway_enabled : Option Text

-- The variable of the module, and the context of the running code.
pub record Runtime : Type 0 where
  pub instance : Option Raceway
  pub ctx : Option RacewayContext

unfoldable pub is_text : Option Text → Text → Bool
is_text none t = false
is_text (some s) t = s == t

unfoldable pub env_config : Environment → RacewayConfig
unfolding codes is_text
env_config env = record {
  server_url = or_else env.raceway_url (codes "http://localhost:8080");
  api_key = none;
  service_name = some (or_else env.raceway_service_name (codes "unknown-service"));
  instance_id = env.raceway_instance_id;
  environment = some (or_else env.node_env (codes "development"));
  enabled = some (not (is_text env.raceway_enabled (codes "false")));
  batch_size = none;
  flush_interval = none;
  tags = none;
  debug = some (is_text env.raceway_debug (codes "true"));
}

module _ (p : Platform) (env : Environment) where
  unfoldable pub initialize_runtime : RacewayConfig → Runtime → Raceway × Runtime
  initialize_runtime config rt = elim rt.instance [
    | some r ↦ (r, rt)
    | none ↦ (new_raceway p config, record rt { instance = some (new_raceway p config) })
  ]

  unfoldable pub get_runtime_instance : Runtime → Raceway × Runtime
  unfolding env_config
  get_runtime_instance rt = elim rt.instance [
    | some r ↦ (r, rt)
    | none ↦ let made = new_raceway p (env_config env) in (made, record rt { instance = some made })
  ]

  abbrev back : Session → Runtime
  back s = record { instance = some s.raceway; ctx = s.ctx }

  -- A method of the instance.
  on_instance : (Session → Session) → Runtime → Runtime
  unfolding get_runtime_instance
  on_instance method rt =
      let (r, made) = get_runtime_instance rt in
      back (method (record { raceway = r; ctx = made.ctx }))

  unfoldable pub runtime_track_state_change :
      Text → Text → Json → Json → AccessType → Runtime → Runtime
  unfolding on_instance
  runtime_track_state_change location variable old new access =
      on_instance (track_state_change p location variable old new access)

  unfoldable pub capture_function_call : Text → Text → Fields → Runtime → Runtime
  unfolding on_instance
  capture_function_call location function_name args =
      on_instance (track_function_call p location function_name args none)

  unfoldable pub capture_custom : Text → Text → Fields → Runtime → Runtime
  unfolding on_instance
  capture_custom location event_name payload =
      on_instance (track_function_call p location event_name payload none)
