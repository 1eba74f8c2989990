-- ===== src/Sdk/Runtime/Single.antt =====
-- The single instance of sdks/typescript/src/runtime.ts.
use raceway.Prelude.{
  ℕ, ◌≡◌, refl, ap, ◌∙◌, Option, none, some, List, [], ◌∷◌, arith, Option-cases, Bool-cases, inl,
  inr,
}
use raceway.Text.{Text}
use raceway.Json.{Json, Fields}
use raceway.Sdk.Types.{AccessType, EventData, RacewayConfig, RacewayContext}
use raceway.Sdk.Raceway.Config.{Platform, Config, Raceway, new_raceway}
use raceway.Sdk.Raceway.Session.{Session}
use raceway.Sdk.Raceway.Capture.{capture_event, send}
use raceway.Sdk.Raceway.Track.{advance_root, track, track_state_change, track_function_call}
use raceway.Sdk.Runtime.{
  Environment, Runtime, env_config, initialize_runtime, get_runtime_instance, on_instance,
  runtime_track_state_change, capture_function_call, capture_custom,
}

track-config :
    (p : Platform) (update : Text → RacewayContext → RacewayContext) (kind : EventData)
    (duration_ns : Option ℕ) (s : Session)
    → (track p update kind duration_ns s).raceway.config ≡ s.raceway.config
unfolding track capture_event send
track-config p update kind duration_ns s = elim (Option-cases s.ctx) [
  | inl e ↦ ground (arith, e)
  | inr (c, e) ↦ elim (Bool-cases s.raceway.config.enabled) [
    | inl on ↦ ground (arith, e, on)
    | inr off ↦ ground (arith, e, off)
  ]
]

-- The functions of the module, and their arguments.
pub data RuntimeCall : Type 0 where
  initialize : RacewayConfig → RuntimeCall
  change : (location variable : Text) (old new : Json) (access : AccessType) → RuntimeCall
  calls : (location function_name : Text) (args : Fields) → RuntimeCall
  custom : (location event_name : Text) (payload : Fields) → RuntimeCall
  get : RuntimeCall

-- What an instance made by the call is configured with.
abbrev pub made_with : Environment → RuntimeCall → RacewayConfig
made_with env (initialize config) = config
made_with env _ = env_config env

-- There is an instance with this configuration.
abbrev pub Has : Runtime → Config → Type 0
Has rt config = (r : Raceway) × (rt.instance ≡ some r) × (r.config ≡ config)

module _ (p : Platform) (env : Environment) where
  call : RuntimeCall → Runtime → Runtime
  call (initialize config) rt = (initialize_runtime p env config rt).1
  call (change l v o n a) rt = runtime_track_state_change p env l v o n a rt
  call (calls l n a) rt = capture_function_call p env l n a rt
  call (custom l n a) rt = capture_custom p env l n a rt
  call get rt = (get_runtime_instance p env rt).1

  unfoldable pub call_all : List RuntimeCall → Runtime → Runtime
  unfolding call
  call_all [] rt = rt
  call_all (c ∷ cs) rt = call_all cs (call c rt)

  instance_of : Option Raceway → RacewayConfig → Raceway
  instance_of none config = new_raceway p config
  instance_of (some r) config = r

  get-instance :
      (rt : Runtime)
      → ((get_runtime_instance p env rt).0 ≡ instance_of rt.instance (env_config env))
        × ((get_runtime_instance p env rt).1.instance
            ≡ some (instance_of rt.instance (env_config env)))
  unfolding get_runtime_instance instance_of
  get-instance rt = elim (Option-cases rt.instance) [
    | inl e ↦ ground (arith, e)
    | inr (r, e) ↦ ground (arith, e)
  ]

  initialize-instance :
      (config : RacewayConfig) (rt : Runtime)
      → (initialize_runtime p env config rt).1.instance ≡ some (instance_of rt.instance config)
  unfolding initialize_runtime instance_of
  initialize-instance config rt = elim (Option-cases rt.instance) [
    | inl e ↦ ground (arith, e)
    | inr (r, e) ↦ ground (arith, e)
  ]

  call-Has :
      (c : RuntimeCall) (rt : Runtime)
      → Has (call c rt) (instance_of rt.instance (made_with env c)).config
  unfolding call runtime_track_state_change capture_function_call capture_custom on_instance
      track_state_change track_function_call
  call-Has (initialize config) rt = (_, initialize-instance config rt, refl)
  call-Has (change l v o n a) rt =
      (_, refl, track-config p advance_root _ _ _ ∙ ap (λ r. r.config) (get-instance rt).0)
  call-Has (calls l n a) rt =
      (_, refl, track-config p advance_root _ _ _ ∙ ap (λ r. r.config) (get-instance rt).0)
  call-Has (custom l n a) rt =
      (_, refl, track-config p advance_root _ _ _ ∙ ap (λ r. r.config) (get-instance rt).0)
  call-Has get rt = (_, (get-instance rt).1, refl)

  call_all-Has :
      (cs : List RuntimeCall) (rt : Runtime) (config : Config)
      → Has rt config
      → Has (call_all cs rt) config
  unfolding call_all instance_of
  call_all-Has [] rt config h = h
  call_all-Has (c ∷ cs) rt config (r, here, same) =
      let (q, there, kept) = call-Has c rt in
      call_all-Has cs (call c rt) config
        (q, there, kept ∙ ap (λ o. (instance_of o (made_with env c)).config) here ∙ same)

-- The first call of the module, whichever it is, makes the instance: from its own configuration if
-- it is `initializeRuntime`, else from the environment. No later call changes the configuration.
pub first_call_configures :
    (p : Platform) (env : Environment) (c : RuntimeCall) (cs : List RuntimeCall) (rt : Runtime)
    → rt.instance ≡ none
    → Has (call_all p env (c ∷ cs) rt) (new_raceway p (made_with env c)).config
unfolding call_all instance_of
first_call_configures p env c cs rt nothing =
    let (q, there, kept) = call-Has p env c rt in
    call_all-Has p env cs (call p env c rt) (new_raceway p (made_with env c)).config
      (q, there, kept ∙ ap (λ o. (instance_of p env o (made_with env c)).config) nothing)
