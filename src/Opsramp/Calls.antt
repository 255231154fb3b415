-- ===== src/Opsramp/Calls.antt =====
-- internal/opsramp/connector.go: what the connector does through its client. The token calls of a client
-- (`EnsureToken`, `Token`, `TokenExpiry`), the list of its resources and `do` are arguments here: they
-- answer by what the OpsRamp servers say.
pub mod Checked
use opsramp_agent_orchestrat.Prelude.{
  ℕ, Bool, true, false, not, Option, none, some, List, [], ◌∷◌, ◌||◌, if◌then◌else◌, Text, codes,
  text_eq, is_empty, Result, ok, err,
}
use opsramp_agent_orchestrat.Model.{OpsRampSettings, OpsRampAgent, is_complete}
use opsramp_agent_orchestrat.Store.World.{Error, World}
use opsramp_agent_orchestrat.Store.Inventory.{list_opsramp_agents}
use opsramp_agent_orchestrat.Opsramp.Endpoints.{
  ApiRequest, Reply, ApiError, delete_resource, get_deploy_script,
}
use opsramp_agent_orchestrat.Opsramp.Connector.{
  Config, Connector, Resource, new_client, current_client, install_host, sync_resources, matching,
}

pub record Remote : Type 0 where
  pub ensure_token : Config → Option Text
  pub token : Config → Bool → Result Text (Text × ℕ)
  pub token_expiry : Config → Option ℕ
  pub agent_resources : Config → Result Text (List Resource)
  -- `SearchResources` of one resource: an error's text, if it fails
  pub probe_tenant : Config → Option Text
  pub ask : Config → ApiRequest → Result Text Reply
  -- whether a text is JSON, and the map that a resource's JSON stands for
  pub valid : Text → Bool
  pub raw_map : Text → Text

pub data CallError : Type 0 where
  not_enabled incomplete : CallError
  refresh_failed client_failed : Text → CallError
  api_failed : ApiError → CallError
  list_failed : Error → CallError

module _ (net : Remote) where
  unfoldable pub synced : Result Text (List Resource) → World → Result CallError ℕ × World
  unfolding sync_resources
  synced (err e) w = (err (client_failed e), w)
  synced (ok rs) w = (ok (sync_resources net.raw_map rs w).0, (sync_resources net.raw_map rs w).1)

  unfoldable pub refreshed : Config → Option Text → World → Result CallError ℕ × World
  unfolding synced
  refreshed client (some e) w = (err (refresh_failed e), w)
  refreshed client none w = synced (net.agent_resources client) w

  -- The poll loop and `SyncNow` make this call.
  unfoldable pub sync_with : Config → World → Result CallError ℕ × World
  unfolding refreshed
  sync_with client w = refreshed client (net.ensure_token client) w

  unfoldable pub sync_client : Option Config → World → Result CallError ℕ × World
  unfolding sync_with
  sync_client none w = (err not_enabled, w)
  sync_client (some client) w = sync_with client w

  unfoldable pub sync_now : Connector → World → Result CallError ℕ × World
  unfolding sync_client current_client
  sync_now c w = sync_client (current_client c) w

  unfoldable pub ensured : Option Config → Option CallError
  ensured none = some not_enabled
  ensured (some client) = elim (net.ensure_token client) [
    | none ↦ none
    | some e ↦ some (refresh_failed e)
  ]

  unfoldable pub ensure_token : Connector → Option CallError
  unfolding ensured current_client
  ensure_token c = ensured (current_client c)

  unfoldable pub failed_as : {A : Type 0} → Result Text A → Result CallError A
  failed_as (ok a) = ok a
  failed_as (err e) = err (client_failed e)

  unfoldable pub token_from : Option Config → Bool → Result CallError (Text × ℕ)
  unfolding failed_as
  token_from none refresh = err not_enabled
  token_from (some client) refresh = failed_as (net.token client refresh)

  unfoldable pub token_of : Connector → Bool → Result CallError (Text × ℕ)
  unfolding token_from current_client
  token_of c refresh = token_from (current_client c) refresh

  unfoldable pub token_expiry_of : Connector → Option ℕ
  unfolding current_client
  token_expiry_of c = elim (current_client c) [ none ↦ none | some k ↦ net.token_expiry k ]

  unfoldable pub ping_of : Connector → Option CallError
  unfolding current_client
  ping_of c = elim (current_client c) [
    | none ↦ some not_enabled
    | some k ↦ elim (net.ensure_token k) [ none ↦ none | some e ↦ some (client_failed e) ]
  ]

  unfoldable pub script_from : Option Config → Result CallError (List ℕ)
  unfolding get_deploy_script
  script_from none = err not_enabled
  script_from (some client) = elim (get_deploy_script client.tenant_id (net.ask client)) [
    | ok s ↦ ok s
    | err e ↦ err (api_failed e)
  ]

  unfoldable pub deploy_script : Connector → Result CallError (List ℕ)
  unfolding script_from current_client
  deploy_script c = script_from (current_client c)

  -- Whether a resource was found, with the error of its deletion.
  unfoldable pub deregistered : Config → Option OpsRampAgent → Bool × Option CallError
  unfolding delete_resource
  deregistered client none = (false, none)
  deregistered client (some a) = (
    true,
    elim (delete_resource client.tenant_id (net.ask client) net.valid a.resource_id) [
      | ok u ↦ none
      | err e ↦ some (api_failed e)
    ],
  )

  unfoldable pub deregister_in :
      Config → Text → Result Error (List OpsRampAgent) × World → (Bool × Option CallError) × World
  unfolding deregistered matching
  deregister_in client host (err e, w) = ((false, some (list_failed e)), w)
  deregister_in client host (ok agents, w) = (deregistered client (matching host agents), w)

  unfoldable pub deregister_with : Option Config → Text → World → (Bool × Option CallError) × World
  unfolding deregister_in list_opsramp_agents
  deregister_with none host w = ((false, some not_enabled), w)
  deregister_with (some client) host w = deregister_in client host (list_opsramp_agents w)

  unfoldable pub deregister_by_host : Connector → Text → World → (Bool × Option CallError) × World
  unfolding deregister_with current_client
  deregister_by_host c host w = deregister_with (current_client c) host w

-- `InstallParams`: nothing where the connector is disabled.
pub record InstallSource : Type 0 where
  pub api_host : Text
  pub key : Text
  pub secret : Text
  pub enabled : Bool

unfoldable pub install_source : Connector → InstallSource
unfolding install_host
install_source c =
    if not c.enabled
    then record { api_host = []; key = []; secret = []; enabled = false }
    else record {
      api_host = install_host c;
      key = c.settings.client_key;
      secret = c.settings.client_secret;
      enabled = true;
    }

pub record ConnectionCheck : Type 0 where
  pub token : Text
  pub expires_at : ℕ
  pub tenant_ok : Bool
  pub tenant_error : Text

unfoldable pub fallen_back : Text → Text → Text
fallen_back [] cur = cur
fallen_back (c ∷ s) cur = c ∷ s

-- Fields left empty are those of the current settings.
unfoldable pub completed : OpsRampSettings → OpsRampSettings → OpsRampSettings
unfolding fallen_back
completed cur s = record s {
  base_url = fallen_back s.base_url cur.base_url;
  tenant_id = fallen_back s.tenant_id cur.tenant_id;
  client_key = fallen_back s.client_key cur.client_key;
  client_secret = fallen_back s.client_secret cur.client_secret;
}

module _ (net : Remote) where
  unfoldable pub probed : Text × ℕ → Option Text → ConnectionCheck
  probed (token, expiry) none = record {
    token = token;
    expires_at = expiry;
    tenant_ok = true;
    tenant_error = [];
  }
  probed (token, expiry) (some e) = record {
    token = token;
    expires_at = expiry;
    tenant_ok = false;
    tenant_error = e;
  }

  unfoldable pub check_client : Config → Result Text (Text × ℕ) → Result CallError ConnectionCheck
  unfolding probed
  check_client probe (err e) = err (client_failed e)
  check_client probe (ok t) = ok (probed t (net.probe_tenant probe))

  -- Nothing is saved, and the live client is left alone.
  unfoldable pub check_settings : OpsRampSettings → Connector → Result CallError ConnectionCheck
  unfolding completed is_complete check_client new_client
  check_settings s c =
      let new = completed c.settings s in
      if not (is_complete new)
      then err incomplete
      else check_client (new_client new) (net.token (new_client new) true)
