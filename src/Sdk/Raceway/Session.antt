-- ===== src/Sdk/Raceway/Session.antt =====
-- An instance of `Raceway` together with the context of the running request, and what JavaScript
-- calls leave behind (sdks/typescript/src/raceway.ts).
use raceway.Prelude.{Option}
use raceway.Text.{Text}
use raceway.Sdk.Types.{RacewayContext}
use raceway.Sdk.TraceContext.Clock.{Component}
use raceway.Sdk.Raceway.Config.{Config, Raceway}

-- `ctx` is racewayContext.getStore(): the object of the current asynchronous context.
pub record Session : Type 0 where
  pub raceway : Raceway
  pub ctx : Option RacewayContext

-- A call returns a value or throws.
pub data Outcome {ℓ} (A : Type ℓ) : Type ℓ where
  returned : A → Outcome A
  threw : Text → Outcome A

abbrev pub local_component : Config → Component
local_component c = record { service_name = c.service_name; instance_id = c.instance_id }
