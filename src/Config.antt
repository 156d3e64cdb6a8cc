-- ===== src/Config.antt =====
-- config/config.go and config/constants.go: the configuration and its initial value. `Url` stands for
-- net/url's type. Durations are in nanoseconds.
pub mod Entries
pub mod Parse
pub mod Load
pub mod Settings
pub mod Values
pub mod Accepted
pub mod Configured
pub mod Start
pub mod Cut
use Prim.Native.String.{◌++◌ as text_append}
use rackspace_monitoring_pol.Base.{
  ℕ, String, Bool, true, false, Option, none, some, List, [], ◌∷◌, ◌*◌, str_eq, if◌then◌else◌, map,
}
use rackspace_monitoring_pol.Protocol.Messages.{Feature}

pub record Config (Url : Type 0) : Type 0 where
  pub use_srv : Bool
  pub use_staging : Bool
  pub srv_queries : List String
  pub addresses : List String
  pub proxy_url : Option Url
  pub agent_id : String
  pub agent_name : String
  pub features : List Feature
  pub guid : String
  pub bundle_version : String
  pub process_version : String
  pub token : String
  pub snet_region : String
  pub zone_ids : List String
  pub reconnect_min_backoff : ℕ
  pub reconnect_max_backoff : ℕ
  pub reconnect_factor_backoff : ℕ
  pub timeout_read : ℕ
  pub timeout_write : ℕ
  pub timeout_auth : ℕ
  pub timeout_prepare_end : ℕ
  pub max_proxy_connection_age : ℕ
  pub max_proxy_connection_age_jitter : ℕ
  pub prometheus_uri : String
  pub statsd_endpoint : String

abbrev second : ℕ
second = 1000000000

abbrev hour : ℕ
hour = 3600 * second

abbrev default_timeout_read : ℕ
default_timeout_read = 10 * second

abbrev default_timeout_write : ℕ
default_timeout_write = 10 * second

abbrev default_timeout_prepare_end : ℕ
default_timeout_prepare_end = 60 * second

abbrev default_timeout_auth : ℕ
default_timeout_auth = 30 * second

abbrev pub default_agent_id : String
default_agent_id = "-poller-"

abbrev default_reconnect_min_backoff : ℕ
default_reconnect_min_backoff = 25 * second

abbrev default_reconnect_max_backoff : ℕ
default_reconnect_max_backoff = 180 * second

abbrev default_reconnect_factor_backoff : ℕ
default_reconnect_factor_backoff = 2

abbrev default_max_connection_age : ℕ
default_max_connection_age = 48 * hour

abbrev default_max_connection_age_jitter : ℕ
default_max_connection_age_jitter = 24 * hour

abbrev pub default_prod_srv_endpoints : List String
default_prod_srv_endpoints =
    "_monitoringagent._tcp.dfw1.prod.monitoring.api.rackspacecloud.com"
    ∷ "_monitoringagent._tcp.ord1.prod.monitoring.api.rackspacecloud.com"
    ∷ "_monitoringagent._tcp.lon3.prod.monitoring.api.rackspacecloud.com" ∷ []

abbrev pub default_staging_srv_endpoints : List String
default_staging_srv_endpoints =
    "_monitoringagent._tcp.dfw1.stage.monitoring.api.rackspacecloud.com"
    ∷ "_monitoringagent._tcp.ord1.stage.monitoring.api.rackspacecloud.com"
    ∷ "_monitoringagent._tcp.lon3.stage.monitoring.api.rackspacecloud.com" ∷ []

-- What the process reads of its environment, and the version that the build sets.
pub record Environment : Type 0 where
  pub agent_token : String
  pub agent_id : String
  pub staging : String
  pub cleartext : String
  pub version : String

abbrev enabled_env_opt : String
enabled_env_opt = "1"

unfoldable pub is_using_staging : Environment → Bool
is_using_staging env = str_eq env.staging enabled_env_opt

unfoldable pub is_using_cleartext : Environment → Bool
is_using_cleartext env = str_eq env.cleartext enabled_env_opt

-- No features is the nil slice.
unfoldable pub new_config :
    {Url : Type 0} → Environment → String → Bool → Option (List Feature) → Config Url
new_config env guid staging given = record {
  use_srv = true;
  use_staging = staging;
  srv_queries = if staging then default_staging_srv_endpoints else default_prod_srv_endpoints;
  addresses = [];
  proxy_url = none;
  agent_id = if str_eq env.agent_id "" then default_agent_id else env.agent_id;
  agent_name = "remote_poller";
  features = elim given [ none ↦ [] | some fs ↦ fs ];
  guid = guid;
  bundle_version = env.version;
  process_version = env.version;
  token = env.agent_token;
  snet_region = "";
  zone_ids = [];
  reconnect_min_backoff = default_reconnect_min_backoff;
  reconnect_max_backoff = default_reconnect_max_backoff;
  reconnect_factor_backoff = default_reconnect_factor_backoff;
  timeout_read = default_timeout_read;
  timeout_write = default_timeout_write;
  timeout_auth = default_timeout_auth;
  timeout_prepare_end = default_timeout_prepare_end;
  max_proxy_connection_age = default_max_connection_age;
  max_proxy_connection_age_jitter = default_max_connection_age_jitter;
  prometheus_uri = "";
  statsd_endpoint = "";
}

pub data ConfigError : Type 0 where
  no_zones : ConfigError
  no_token : ConfigError

unfoldable pub validate : {Url : Type 0} → Config Url → Option ConfigError
validate cfg = elim cfg.zone_ids [
  | [] ↦ some no_zones
  | z ∷ zs ↦ if str_eq cfg.token "" then some no_token else none
]

abbrev pub set_private_zones : {Url : Type 0} → List String → Config Url → Config Url
set_private_zones zones cfg = record cfg { zone_ids = zones }
