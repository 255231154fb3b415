-- ===== src/Model.antt =====
-- internal/model/model.go: the domain types that the store, the OpAMP server and the admin API share.
-- A time is a number of nanoseconds since 1970; a `map[string]any` is its JSON text.
use opsramp_agent_orchestrat.Prelude.{ℕ, Bool, not, ◌&&◌, Option, List, Text, is_empty}
use opsramp_agent_orchestrat.Prelude.Dicts.{Dict}

-- A signed number of nanoseconds: whether it is negative, and its size.
abbrev pub Nanos : Type 0
Nanos = Bool × ℕ

pub record ConfigFile : Type 0 where
  pub body : Text
  pub content_type : Text

pub record Group : Type 0 where
  pub name : Text
  pub description : Text
  pub selector : Dict Text
  pub current_version : ℕ
  pub updated_at : ℕ

pub record ConfigVersion : Type 0 where
  pub id : ℕ
  pub group_name : Text
  pub version : ℕ
  pub files : Dict ConfigFile
  pub hash : Text
  pub note : Text
  pub created_by : Text
  pub created_at : ℕ

pub record Package : Type 0 where
  pub name : Text
  pub type : ℕ
  pub version : Text
  pub content_hash : Text
  pub signature : Text
  pub size : ℕ
  pub updated_at : ℕ

pub record Agent : Type 0 where
  pub instance_uid : Text
  pub status : Text
  pub service_name : Text
  pub service_version : Text
  pub hostname : Text
  pub os_type : Text
  pub identifying_attrs : Dict Text
  pub non_identifying_attrs : Dict Text
  pub capabilities : ℕ
  pub effective_config : Text
  pub effective_config_hash : Text
  pub remote_config_status : ℕ
  pub remote_config_error : Text
  pub last_remote_config_hash : Text
  pub health_healthy : Bool
  pub health_status : Text
  pub health_last_error : Text
  pub health_start_time : Option Nanos
  pub health_status_time : Option Nanos
  pub package_statuses : Text
  pub assigned_group : Option Text
  pub resolved_group : Text
  pub first_seen : ℕ
  pub last_seen : ℕ

pub record OpsRampAgent : Type 0 where
  pub resource_id : Text
  pub name : Text
  pub host_name : Text
  pub ip_address : Text
  pub resource_type : Text
  pub agent_installed : Bool
  pub agent_version : Text
  pub agent_status : Text
  pub client_id : Text
  pub raw : Text
  pub first_seen : ℕ
  pub last_synced : ℕ

pub record OpsRampSettings : Type 0 where
  pub base_url : Text
  pub tenant_id : Text
  pub client_key : Text
  pub client_secret : Text
  pub poll_interval_seconds : ℕ
  pub enabled : Bool
  pub updated_at : ℕ

-- All that is needed to connect is there.
unfoldable pub is_complete : OpsRampSettings → Bool
is_complete s =
    not (is_empty s.base_url)
    && (not (is_empty s.tenant_id)
        && (not (is_empty s.client_key) && not (is_empty s.client_secret)))

pub record DeployHostResult : Type 0 where
  pub job_id : Text
  pub host : Text
  pub status : Text
  -- `none` is -1: no exit status.
  pub exit_code : Option ℕ
  pub output : Text
  pub error : Text
  pub duration_ms : ℕ
  pub updated_at : ℕ

pub record DeployJob : Type 0 where
  pub id : Text
  pub action : Text
  pub status : Text
  pub target_spec : Text
  pub ssh_user : Text
  pub port : ℕ
  pub use_sudo : Bool
  pub integration_id : Text
  pub total : ℕ
  pub succeeded : ℕ
  pub failed : ℕ
  pub created_by : Text
  pub created_at : ℕ
  pub finished_at : Option ℕ
  pub hosts : List DeployHostResult

pub record Event : Type 0 where
  pub id : ℕ
  pub instance_uid : Text
  pub kind : Text
  pub detail : Text
  pub ts : ℕ
