-- ===== src/Deploy/Start.antt =====
-- internal/deploy/manager.go: what `StartJob` checks and records, and what it hands to the workers.
-- The connector's answers are parameters, as are the new job's id and the text syntax of addresses.
pub mod Checks
pub mod Created
use opsramp_agent_orchestrat.Prelude.{
  ℕ, Bool, true, false, not, ◌&&◌, ◌||◌, Option, none, some, List, [], ◌∷◌, length, ◌==◌,
  if◌then◌else◌, Text, codes, text_eq, is_empty, trim_space, Result, ok, err,
}
use opsramp_agent_orchestrat.Model.{DeployJob}
use opsramp_agent_orchestrat.Store.World.{Error, World}
use opsramp_agent_orchestrat.Store.Jobs.{create_deploy_job}
use opsramp_agent_orchestrat.Deploy.Address.{Syntax}
use opsramp_agent_orchestrat.Deploy.Commands.{InstallParams}
use opsramp_agent_orchestrat.Deploy.Dial.{Credentials}
use opsramp_agent_orchestrat.Deploy.Targets.{TargetError, expand_targets}

pub record StartRequest : Type 0 where
  pub action : Text
  pub target_spec : Text
  pub creds : Credentials
  pub integration_id : Text
  pub enable_log_mgmt : Bool
  pub created_by : Text
  pub agent_key : Text
  pub agent_secret : Text
  pub uninstall_command : Text
  pub deregister : Bool

-- `InstallParams()` of the connector.
pub record SourceParams : Type 0 where
  pub api_host : Text
  pub key : Text
  pub secret : Text
  pub enabled : Bool

-- What the connector answers: an error's text, or nothing; and the installer, or an error's text.
pub record OpsRampSource : Type 0 where
  pub install_params : SourceParams
  pub ensure_token : Option Text
  pub deploy_script : Result Text (List ℕ)

pub data StartError : Type 0 where
  unknown_action : Text → StartError
  bad_targets : TargetError → StartError
  no_user no_credentials not_configured : StartError
  token_error script_error : Text → StartError
  store_error : Error → StartError

-- `perHost`: what a worker does on each host.
pub data PerHost : Type 0 where
  install : InstallParams → PerHost
  probe : Text → PerHost
  uninstall : Text → Bool → PerHost

unfoldable pub is_install_action : Text → Bool
is_install_action a =
    text_eq a (codes "install") || (text_eq a (codes "repair") || text_eq a (codes "upgrade"))

unfoldable pub is_action : Text → Bool
unfolding is_install_action
is_action a =
    is_install_action a || (text_eq a (codes "preflight") || text_eq a (codes "uninstall"))

unfoldable pub action_of : StartRequest → Text
action_of req = if is_empty req.action then codes "install" else req.action

or_else : Text → Text → Text
or_else [] other = other
or_else (c ∷ s) other = c ∷ s

-- The operator's agent keys, else the connector's.
unfoldable pub install_params : StartRequest → SourceParams → List ℕ → InstallParams
unfolding or_else
install_params req p script = record {
  api_host = p.api_host;
  key = or_else req.agent_key p.key;
  secret = or_else req.agent_secret p.secret;
  integration_id = req.integration_id;
  enable_log_mgmt = req.enable_log_mgmt;
  script = script;
}

unfoldable with_script :
    StartRequest → SourceParams → Result Text (List ℕ) → Result StartError PerHost
unfolding install_params
with_script req p (err e) = err (script_error e)
with_script req p (ok script) = ok (install (install_params req p script))

unfoldable pub per_host : OpsRampSource → StartRequest → Result StartError PerHost
unfolding action_of is_install_action with_script
per_host src req =
    if is_install_action (action_of req)
    then (if not src.install_params.enabled
        then err not_configured
        else with_script req src.install_params src.deploy_script)
    else if text_eq (action_of req) (codes "preflight")
    then ok (probe src.install_params.api_host)
    else ok (uninstall req.uninstall_command req.deregister)

-- The token is renewed where the connector is enabled.
unfoldable pub renewed : OpsRampSource → Option Text
renewed src = if src.install_params.enabled then src.ensure_token else none

unfoldable after_token : OpsRampSource → StartRequest → Option Text → Result StartError PerHost
unfolding per_host
after_token src req none = per_host src req
after_token src req (some e) = err (token_error e)

unfoldable with_hosts :
    List Text → Result StartError PerHost → Result StartError (List Text × PerHost)
with_hosts hosts (err e) = err e
with_hosts hosts (ok p) = ok (hosts, p)

unfoldable checked :
    OpsRampSource
    → StartRequest
    → Result TargetError (List Text)
    → Result StartError (List Text × PerHost)
unfolding with_hosts after_token renewed
checked src req (err e) = err (bad_targets e)
checked src req (ok hosts) =
    if is_empty req.creds.user
    then err no_user
    else if is_empty req.creds.password && is_empty (trim_space req.creds.private_key)
    then err no_credentials
    else with_hosts hosts (after_token src req (renewed src))

-- All that comes before the job is recorded.
unfoldable pub validate :
    Syntax → OpsRampSource → StartRequest → Result StartError (List Text × PerHost)
unfolding action_of is_action checked
validate syn src req =
    if not (is_action (action_of req))
    then err (unknown_action (action_of req))
    else checked src req (expand_targets syn req.target_spec)

unfoldable pub new_job : Text → StartRequest → List Text → DeployJob
unfolding action_of
new_job id req hosts = record {
  id = id;
  action = action_of req;
  status = codes "running";
  target_spec = req.target_spec;
  ssh_user = req.creds.user;
  port = req.creds.port;
  use_sudo = req.creds.use_sudo;
  integration_id = req.integration_id;
  total = length hosts;
  succeeded = 0;
  failed = 0;
  created_by = req.created_by;
  created_at = 0;
  finished_at = none;
  hosts = [];
}

abbrev pub Started : Type 0
Started = DeployJob × List Text × PerHost

unfoldable created : Started → Result Error (Unit {0}) × World → Result StartError Started × World
created s (ok u, w) = (ok s, w)
created s (err e, w) = (err (store_error e), w)

unfoldable record_job :
    Text
    → StartRequest
    → Result StartError (List Text × PerHost)
    → World
    → Result StartError Started × World
unfolding created new_job create_deploy_job
record_job id req (err e) w = (err e, w)
record_job id req (ok (hosts, p)) w =
    created (new_job id req hosts, hosts, p) (create_deploy_job (new_job id req hosts) hosts w)

-- The job, its hosts and what to do on each, which `run` takes over.
unfoldable pub start_job :
    Syntax → OpsRampSource → Text → StartRequest → World → Result StartError Started × World
unfolding validate record_job
start_job syn src id req w = record_job id req (validate syn src req) w
