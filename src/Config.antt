-- ===== src/Config.antt =====
-- internal/config/config.go: the configuration from the environment. The environment, the parsing of a
-- duration and `strconv.Atoi` are parameters; a signed number is its sign, true where it is negative, and
-- its magnitude.
pub mod Loaded
use opsramp_agent_orchestrat.Prelude.{
  ℕ, ◌*◌, Bool, true, false, not, ◌&&◌, Option, none, some, List, [], ◌∷◌, if◌then◌else◌, Text,
  codes, is_empty, trim_right, ◌==◌, Result, ok, err,
}

abbrev pub Signed : Type 0
Signed = Bool × ℕ

pub record Environment : Type 0 where
  pub lookup_env : Text → Option Text
  pub atoi : Text → Option Signed
  pub parse_duration : Text → Option Signed

pub record OpsRampConfig : Type 0 where
  pub base_url : Text
  pub tenant_id : Text
  pub client_key : Text
  pub client_secret : Text
  -- nanoseconds
  pub poll_interval : Signed

pub record Config : Type 0 where
  pub opamp_listen : Text
  pub opamp_path : Text
  pub auth_token : Text
  pub admin_listen : Text
  pub admin_token : Text
  pub public_base_url : Text
  pub database_url : Text
  pub default_group : Text
  pub log_level : Text
  pub shutdown_timeout : Signed
  pub opsramp : OpsRampConfig
  pub deploy_state_dir : Text
  pub deploy_concurrency : Signed

-- `Enabled`
unfoldable pub is_enabled : OpsRampConfig → Bool
is_enabled o =
    not (is_empty o.base_url)
    && (not (is_empty o.tenant_id)
        && (not (is_empty o.client_key) && not (is_empty o.client_secret)))

unfoldable pub or_default : Option Text → Text → Text
or_default none default = default
or_default (some v) default = if not (is_empty v) then v else default

unfoldable pub parsed_or : Option Signed → Signed → Signed
parsed_or none default = default
parsed_or (some n) default = n

-- A text that does not parse gives the default.
unfoldable pub parsed_env : (Text → Option Signed) → Option Text → Signed → Signed
unfolding parsed_or
parsed_env parse none default = default
parsed_env parse (some v) default =
    if not (is_empty v) then parsed_or (parse v) default else default

module _ (e : Environment) where
  unfoldable pub env : Text → Text → Text
  unfolding or_default
  env key default = or_default (e.lookup_env key) default

  unfoldable pub env_int : Text → Signed → Signed
  unfolding parsed_env
  env_int key default = parsed_env e.atoi (e.lookup_env key) default

  unfoldable pub env_duration : Text → Signed → Signed
  unfolding parsed_env
  env_duration key default = parsed_env e.parse_duration (e.lookup_env key) default

  unfoldable pub trimmed_url : Text → Text → Text
  unfolding env trim_right
  trimmed_url key default = trim_right (λ c. c == b'/') (env key default)

  unfoldable pub defaulted : Config
  unfolding env env_int env_duration trimmed_url
  defaulted = record {
    opamp_listen = env (codes "OPAMP_LISTEN_ENDPOINT") (codes ":4320");
    opamp_path = env (codes "OPAMP_LISTEN_PATH") (codes "/v1/opamp");
    auth_token = env (codes "OPAMP_AUTH_TOKEN") [];
    admin_listen = env (codes "ADMIN_LISTEN_ENDPOINT") (codes ":8080");
    admin_token = env (codes "ADMIN_AUTH_TOKEN") [];
    public_base_url = trimmed_url (codes "PUBLIC_BASE_URL") (codes "http://localhost:8080");
    database_url = env (codes "DATABASE_URL") [];
    default_group = env (codes "DEFAULT_GROUP") (codes "default");
    log_level = env (codes "LOG_LEVEL") (codes "info");
    shutdown_timeout = (false, 15 * 1000000000);
    opsramp = record {
      base_url = trimmed_url (codes "OPSRAMP_API_URL") [];
      tenant_id = env (codes "OPSRAMP_TENANT_ID") [];
      client_key = env (codes "OPSRAMP_CLIENT_KEY") [];
      client_secret = env (codes "OPSRAMP_CLIENT_SECRET") [];
      poll_interval = env_duration (codes "OPSRAMP_POLL_INTERVAL") (false, 60 * 1000000000);
    };
    deploy_state_dir = env (codes "DEPLOY_STATE_DIR") (codes "/var/lib/orchestrator");
    deploy_concurrency = env_int (codes "DEPLOY_CONCURRENCY") (false, 10);
  }

  unfoldable pub load : Result Text Config
  unfolding defaulted
  load =
      if is_empty defaulted.database_url
      then err (codes "DATABASE_URL is required")
      else ok defaulted
