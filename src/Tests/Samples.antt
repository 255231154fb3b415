-- ===== src/Tests/Samples.antt =====
-- A small database: two groups, of which "web" has a version, an agent and a package.
use opsramp_agent_orchestrat.Deploy.Start.{StartRequest, OpsRampSource}
use opsramp_agent_orchestrat.Prelude.{true, false, none, some, [], ◌∷◌, Text, codes, err}
use opsramp_agent_orchestrat.Prelude.Dicts.{Dict}
use opsramp_agent_orchestrat.Model.{
  Agent, Group, ConfigFile, ConfigVersion, OpsRampAgent, OpsRampSettings,
}
use opsramp_agent_orchestrat.Store.World.{Db, World}
use opsramp_agent_orchestrat.Opamp.Offers.{Offering}
use opsramp_agent_orchestrat.Opamp.Messages.{Setup}
use opsramp_agent_orchestrat.Deploy.Address.{Syntax, v4}
use opsramp_agent_orchestrat.Opsramp.Connector.{Connector}

abbrev pub web : Text
web = codes "web"

abbrev pub files : Dict ConfigFile
files = (codes "a.yaml", record { body = codes "x: 1"; content_type = [] }) ∷ []

abbrev pub web_group : Group
web_group = record {
  name = web;
  description = [];
  selector = (codes "role", codes "web") ∷ [];
  current_version = 1;
  updated_at = 0;
}

abbrev pub default_group_row : Group
default_group_row = record {
  name = codes "default";
  description = [];
  selector = [];
  current_version = 0;
  updated_at = 0;
}

abbrev pub first_version : ConfigVersion
first_version = record {
  id = 1;
  group_name = web;
  version = 1;
  files = files;
  hash = codes "ab01";
  note = [];
  created_by = codes "admin";
  created_at = 1;
}

abbrev pub agent : Agent
agent = record {
  instance_uid = codes "0a";
  status = codes "connected";
  service_name = [];
  service_version = [];
  hostname = [];
  os_type = [];
  identifying_attrs = (codes "role", codes "web") ∷ [];
  non_identifying_attrs = [];
  capabilities = 10;
  effective_config = [];
  effective_config_hash = [];
  remote_config_status = 0;
  remote_config_error = [];
  last_remote_config_hash = [];
  health_healthy = true;
  health_status = [];
  health_last_error = [];
  health_start_time = none;
  health_status_time = none;
  package_statuses = codes "{}";
  assigned_group = none;
  resolved_group = web;
  first_seen = 1;
  last_seen = 1;
}

abbrev pub db : Db
db = record {
  agents = agent ∷ [];
  groups = web_group ∷ default_group_row ∷ [];
  versions = first_version ∷ [];
  packages = [];
  assignments = [];
  events = [];
  inventory = [];
  settings = none;
  jobs = [];
  job_hosts = [];
  next_version_id = 2;
  next_event_id = 1;
}

abbrev pub world : World
world = record { db = db; now = 9; faults = [] }

-- The third statement fails.
abbrev pub failing : World
failing = record { db = db; now = 9; faults = false ∷ false ∷ true ∷ [] }

abbrev pub inventory_agent : OpsRampAgent
inventory_agent = record {
  resource_id = codes "r1";
  name = codes "n1";
  host_name = codes "h1";
  ip_address = codes "10.0.0.1";
  resource_type = [];
  agent_installed = true;
  agent_version = codes "1.2.3";
  agent_status = codes "DOWN";
  client_id = [];
  raw = [];
  first_seen = 0;
  last_synced = 0;
}

abbrev pub settings : OpsRampSettings
settings = record {
  base_url = codes "https://x/";
  tenant_id = codes "t";
  client_key = codes "k";
  client_secret = [];
  poll_interval_seconds = 0;
  enabled = true;
  updated_at = 0;
}

abbrev pub offering : Offering
offering = record { public_base_url = codes "http://o"; sha256 = λ s. s }

abbrev pub setup : Setup
setup = record {
  default_group = codes "default";
  auth_token = [];
  offering = offering;
  printing = record { format_float = λ n. []; sprint = λ n. [] };
  json = record { marshal_statuses = λ s. none; unmarshal_map = λ s. none };
}

-- Nothing parses but one block; an address is shown as its number, in one byte.
abbrev pub syntax : Syntax
syntax = record {
  parse_addr = λ t. none;
  parse_prefix = λ t. some (record { addr = v4 9; bits = 31 });
  show = λ a. codes "h";
  scan_int = λ t. none;
}

abbrev pub connector : Connector
connector = record {
  settings = record settings { client_secret = codes "s"; enabled = false };
  enabled = false;
  client = none;
  started = true;
  polling = none;
}

abbrev pub spec : Text
spec = codes "a b,a"

abbrev pub request : StartRequest
request = record {
  action = codes "preflight";
  target_spec = spec;
  creds = record {
    user = codes "root";
    password = codes "pw";
    private_key = [];
    passphrase = [];
    port = 0;
    use_sudo = false;
    bastion_host = [];
    bastion_user = [];
    bastion_password = [];
    bastion_private_key = [];
    bastion_passphrase = [];
    bastion_port = 0;
  };
  integration_id = [];
  enable_log_mgmt = false;
  created_by = [];
  agent_key = [];
  agent_secret = [];
  uninstall_command = [];
  deregister = false;
}

abbrev pub source : OpsRampSource
source = record {
  install_params = record { api_host = []; key = []; secret = []; enabled = false };
  ensure_token = none;
  deploy_script = err [];
}
