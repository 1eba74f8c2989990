-- ===== src/Sdk/Runtime/Tests.antt =====
-- Calls of sdks/typescript/src/runtime.ts.
use raceway.Prelude.{refl, none, some, [], ◌∷◌}
use raceway.Sdk.Raceway.Config.{new_raceway}
use raceway.Sdk.Raceway.Tests.{platform, options, ctx}
use raceway.Sdk.Runtime.{Environment, Runtime, env_config}
use raceway.Sdk.Runtime.Single.{initialize, get, call_all, Has, first_call_configures}

abbrev env : Environment
env = record {
  raceway_debug = none;
  raceway_url = none;
  raceway_service_name = some (b's' ∷ []);
  raceway_instance_id = none;
  node_env = none;
  raceway_enabled = none;
}

abbrev fresh : Runtime
fresh = record { instance = none; ctx = some ctx }

first_call_configures_example :
    Has
      (call_all platform env (get ∷ initialize (options none) ∷ []) fresh)
      (new_raceway platform (env_config env)).config
first_call_configures_example =
    first_call_configures platform env get (initialize (options none) ∷ []) fresh refl
