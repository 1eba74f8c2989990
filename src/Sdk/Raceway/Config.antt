-- ===== src/Sdk/Raceway/Config.antt =====
-- The constructor of `Raceway` (sdks/typescript/src/raceway.ts).
use raceway.Prelude.{ℕ, zero, suc, Bool, true, false, List, [], ◌∷◌, ◌++◌, Option, none, some}
use raceway.Text.{Text, codes, or_else}
use raceway.Sdk.Types.{RacewayConfig, Event}
use raceway.Sdk.Client.{RacewayClient, new_client}

-- What the process gives: `os.hostname()` (none where it throws), `process.pid` and the text that
-- a template prints for it, two environment variables, and the sources of random ids and of time.
-- A source is read at the number of draws made so far.
pub record Platform : Type 0 where
  pub hostname : Option Text
  pub pid : ℕ
  pub pid_text : Text
  pub env_instance_id : Option Text
  pub env_node_env : Option Text
  pub uuid : ℕ → Text
  pub random_span : ℕ → Text
  pub timestamp : ℕ → Text

-- the private field `config`, with every default filled in
pub record Config : Type 0 where
  pub server_url : Text
  pub api_key : Option Text
  pub service_name : Text
  pub instance_id : Text
  pub environment : Text
  pub enabled : Bool
  pub batch_size : ℕ
  pub flush_interval : ℕ
  pub tags : List (Text × Text)
  pub debug : Bool

abbrev or_default {ℓ} : {A : Type ℓ} → Option A → A → A
or_default none d = d
or_default (some a) d = a

-- n || d: 0 is falsy
abbrev or_number : Option ℕ → ℕ → ℕ
or_number none d = d
or_number (some zero) d = d
or_number (some (suc n)) d = suc n

unfoldable pub safe_hostname : Platform → Text
safe_hostname p = or_default p.hostname (codes "instance")

unfoldable pub new_config : Platform → RacewayConfig → Config
unfolding safe_hostname
new_config p config = record {
  server_url = config.server_url;
  api_key = config.api_key;
  service_name = or_else config.service_name (codes "unknown-service");
  instance_id =
      or_else config.instance_id (or_else p.env_instance_id (safe_hostname p ++ b'-' ∷ p.pid_text));
  environment = or_else config.environment (or_else p.env_node_env (codes "development"));
  enabled = or_default config.enabled true;
  batch_size = or_number config.batch_size 100;
  flush_interval = or_number config.flush_interval 1000;
  tags = or_default config.tags [];
  debug = or_default config.debug false;
}

-- An instance. `drawn` counts the draws from the platform's sources, and `captured` is the history
-- of the events that were given to the client.
pub record Raceway : Type 0 where
  pub config : Config
  pub client : RacewayClient
  pub drawn : ℕ
  pub captured : List Event

unfoldable pub new_raceway : Platform → RacewayConfig → Raceway
unfolding new_config
new_raceway p config =
    let c = new_config p config in
    record {
      config = c;
      client = new_client c.server_url c.batch_size c.flush_interval c.debug c.api_key;
      drawn = 0;
      captured = [];
    }
