-- ===== src/Opsramp/Connector.antt =====
-- internal/opsramp/connector.go and poller.go: the settings, the client that they make, and their change
-- at run time. Whether a client can get a token is a parameter; the JSON of a resource is its text.
pub mod Settings
use opsramp_agent_orchestrat.Prelude.{
  ℕ, zero, suc, ◌+◌, Bool, true, false, not, ◌&&◌, ◌||◌, Option, none, some, List, [], ◌∷◌, ltb,
  ◌==◌, if◌then◌else◌, Text, codes, text_eq, is_empty, trim_right, trim_prefix, Result, ok, err,
}
use opsramp_agent_orchestrat.Model.{OpsRampSettings, OpsRampAgent, is_complete}
use opsramp_agent_orchestrat.Store.World.{Error, World}
use opsramp_agent_orchestrat.Store.Inventory.{
  get_opsramp_settings, save_opsramp_settings, upsert_opsramp_agent, list_opsramp_agents,
}

-- A client, by its configuration.
pub record Config : Type 0 where
  pub base_url : Text
  pub tenant_id : Text
  pub client_key : Text
  pub client_secret : Text

pub record Connector : Type 0 where
  pub settings : OpsRampSettings
  pub enabled : Bool
  pub client : Option Config
  -- `rootCtx` is set, and the interval of the poll loop that runs, in seconds
  pub started : Bool
  pub polling : Option ℕ

-- `strings.TrimRight(s, "/")`
unfoldable pub trim_slashes : Text → Text
unfolding trim_right
trim_slashes s = trim_right (λ c. c == 47) s

-- `New`
unfoldable pub new_client : OpsRampSettings → Config
unfolding trim_slashes
new_client s = record {
  base_url = trim_slashes s.base_url;
  tenant_id = s.tenant_id;
  client_key = s.client_key;
  client_secret = s.client_secret;
}

unfoldable pub interval : OpsRampSettings → ℕ
interval s = if ltb s.poll_interval_seconds 30 then 60 else s.poll_interval_seconds

unfoldable pub apply : OpsRampSettings → Connector → Connector
unfolding is_complete new_client interval
apply s c =
    if s.enabled && is_complete s
    then record {
      settings = s;
      enabled = true;
      client = some (new_client s);
      started = c.started;
      polling = if c.started then some (interval s) else none;
    }
    else record {
      settings = s;
      enabled = false;
      client = none;
      started = c.started;
      polling = none;
    }

unfoldable pub current_client : Connector → Option Config
current_client c = if c.enabled then c.client else none

-- The secret is left out.
unfoldable pub settings_of : Connector → OpsRampSettings
settings_of c = record c.settings { client_secret = [] }

unfoldable pub has_secret : Connector → Bool
has_secret c = not (is_empty c.settings.client_secret)

unfoldable seed : OpsRampSettings → OpsRampSettings
seed s = record s {
  enabled = true;
  poll_interval_seconds = if s.poll_interval_seconds == 0 then 60 else s.poll_interval_seconds;
}

unfoldable begin :
    OpsRampSettings
    → Connector
    → Result Error (Option OpsRampSettings) × World
    → Result Error (Unit {0}) × Connector × World
unfolding seed apply is_complete save_opsramp_settings
begin env c (err e, w) = (err e, c, w)
begin env c (ok (some s), w) = (ok tt, apply s c, w)
begin env c (ok none, w) =
    if is_complete env
    then (ok tt, apply (seed env) c, (save_opsramp_settings (seed env) w).1)
    else (ok tt, c, w)

unfoldable pub start :
    OpsRampSettings → Connector → World → Result Error (Unit {0}) × Connector × World
unfolding begin get_opsramp_settings
start env c w = begin env (record c { started = true }) (get_opsramp_settings w)

-- What `Reconfigure` makes of its input before it checks it.
unfoldable keep_secret : Text → Text → Text
keep_secret [] prev = prev
keep_secret (c ∷ s) prev = c ∷ s

unfoldable filled : OpsRampSettings → OpsRampSettings → OpsRampSettings
unfolding keep_secret
filled prev s = record s {
  client_secret = keep_secret s.client_secret prev.client_secret;
  poll_interval_seconds = if s.poll_interval_seconds == 0 then 60 else s.poll_interval_seconds;
}

unfoldable pub normalized : OpsRampSettings → OpsRampSettings → OpsRampSettings
unfolding filled is_complete
normalized prev s = record (filled prev s) {
  enabled = if is_complete (filled prev s) then s.enabled else false;
}

pub data ConfigureError : Type 0 where
  check_failed : Text → ConfigureError
  not_saved : Error → ConfigureError

unfoldable saved :
    OpsRampSettings
    → Connector
    → Result Error (Unit {0}) × World
    → Result ConfigureError (Unit {0}) × Connector × World
unfolding apply
saved s c (err e, w) = (err (not_saved e), c, w)
saved s c (ok u, w) = (ok tt, apply s c, w)

unfoldable checked :
    OpsRampSettings
    → Connector
    → Option Text
    → World
    → Result ConfigureError (Unit {0}) × Connector × World
unfolding saved save_opsramp_settings
checked s c (some e) w = (err (check_failed e), c, w)
checked s c none w = saved s c (save_opsramp_settings s w)

-- `ping` gives the error of a client, if it has one.
unfoldable pub reconfigure :
    (Config → Option Text)
    → OpsRampSettings
    → Connector
    → World
    → Result ConfigureError (Unit {0}) × Connector × World
unfolding normalized new_client checked
reconfigure ping s c w =
    let new = normalized c.settings s in
    checked new c (if new.enabled then ping (new_client new) else none) w

unfoldable pub install_host : Connector → Text
unfolding trim_slashes trim_prefix
install_host c =
    trim_slashes
      (trim_prefix (codes "http://") (trim_prefix (codes "https://") c.settings.base_url))

pub record Resource : Type 0 where
  pub id : Text
  pub name : Text
  pub host_name : Text
  pub alias_name : Text
  pub ip_address : Text
  pub resource_type : Text
  pub resource_name : Text
  pub agent_installed : Bool
  pub agent_version : Text
  pub state : Text
  pub status : Text
  pub client_unique_id : Text
  pub raw : Text

unfoldable pub to_model : (Text → Text) → Resource → OpsRampAgent
unfolding keep_secret
to_model raw_map r = record {
  resource_id = r.id;
  name = keep_secret r.name r.resource_name;
  host_name = r.host_name;
  ip_address = r.ip_address;
  resource_type = r.resource_type;
  agent_installed = r.agent_installed;
  agent_version = r.agent_version;
  agent_status = keep_secret r.status r.state;
  client_id = r.client_unique_id;
  raw = raw_map r.raw;
  first_seen = 0;
  last_synced = 0;
}

sync_row : Result Error (Unit {0}) × World → ℕ × World
sync_row (ok u, w) = (1, w)
sync_row (err e, w) = (0, w)

-- The rows that could be written are counted.
unfoldable pub sync_resources : (Text → Text) → List Resource → World → ℕ × World
unfolding sync_row to_model upsert_opsramp_agent
sync_resources raw_map [] w = (0, w)
sync_resources raw_map (r ∷ rs) w =
    let one = sync_row (upsert_opsramp_agent (to_model raw_map r) w) in
    let rest = sync_resources raw_map rs one.1 in (one.0 + rest.0, rest.1)

-- The first row whose address or name is the host.
unfoldable pub matching : Text → List OpsRampAgent → Option OpsRampAgent
matching host [] = none
matching host (a ∷ agents) =
    let rest = matching host agents in
    if text_eq a.ip_address host || text_eq a.host_name host then some a else rest
