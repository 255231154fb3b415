-- ===== src/Api/Connector.antt =====
-- internal/api/opsramp.go: the connector's settings, its token, the inventory, and the requests that are
-- passed on to the OpsRamp API.
use opsramp_agent_orchestrat.Prelude.{
  ℕ, true, false, ◌||◌, ◌++◌, Option, none, some, List, length, Text, codes, is_empty, ◌==◌,
  if◌then◌else◌, trim_right, Result, ok, err,
}
use opsramp_agent_orchestrat.Model.{OpsRampSettings}
use opsramp_agent_orchestrat.Store.World.{Error, World}
use opsramp_agent_orchestrat.Store.Inventory.{list_opsramp_agents, count_opsramp_agents}
use opsramp_agent_orchestrat.Opsramp.Connector.{
  Config, Connector, ConfigureError, settings_of, has_secret, current_client, reconfigure,
}
use opsramp_agent_orchestrat.Opsramp.Endpoints.{
  ApiError, get_agent_info, configure_auto_updates, assign_policy_devices, assign_profile_devices,
  download_agent,
}
use opsramp_agent_orchestrat.Opsramp.Calls.{
  CallError, ConnectionCheck, sync_now, token_of, token_expiry_of, ping_of, check_settings,
}
use opsramp_agent_orchestrat.Api.Http.{
  Request, connector_config, connector_changed, connector_status, check_failed_payload, check_done,
  token_payload, inventory_listed, synced_count, raw_json, download, Site, SettingsBody, Handler,
  write_json, write_err, with_world, call, with_body,
}

unfoldable pub trim_url : Text → Text
unfolding trim_right
trim_url u = trim_right (λ c. c == b'/' || c == b' ') u

unfoldable pub handle_opsramp_get_config : Handler
unfolding settings_of has_secret
handle_opsramp_get_config st =
    write_json 200
      (connector_config (settings_of st.connector) st.connector.enabled (has_secret st.connector))
      st

-- Enabled, where the body does not say.
unfoldable pub settings_from : SettingsBody → OpsRampSettings
unfolding trim_url
settings_from b = record {
  base_url = trim_url b.base_url;
  tenant_id = b.tenant_id;
  client_key = b.client_key;
  client_secret = b.client_secret;
  poll_interval_seconds = b.poll_interval_seconds;
  enabled = elim b.enabled [ none ↦ true | some on ↦ on ];
  updated_at = 0;
}

unfoldable pub reconfigured : Site → Result ConfigureError (Unit {0}) × Connector × World → Handler
reconfigured s (ok u, c, w) st =
    write_json 200 (connector_changed c.enabled) (record st { world = w; connector = c })
reconfigured s (err e, c, w) st =
    write_err 400 (s.configure_error_text e) (record st { world = w; connector = c })

unfoldable pub handle_opsramp_set_config : Site → Request → Handler
unfolding reconfigured reconfigure settings_from
handle_opsramp_set_config s r = with_body (s.bodies.settings_fields r.body) λ b st.
    reconfigured s (reconfigure s.remote.ensure_token (settings_from b) st.connector st.world) st

-- Whether the client is accepted, and the error otherwise; nothing where it is not asked.
unfoldable pub authenticated : Site → Connector → Option (Option Text)
unfolding ping_of
authenticated s c =
    if c.enabled
    then some (elim (ping_of s.remote c) [ none ↦ none | some e ↦ some (s.call_error_text e) ])
    else none

unfoldable pub expiring : Site → Connector → Option ℕ
unfolding token_expiry_of
expiring s c = if c.enabled then token_expiry_of s.remote c else none

unfoldable pub counted : Site → Result Error ℕ × World → Handler
unfolding authenticated expiring settings_of
counted s (r, w) st =
    write_json 200
      (connector_status st.connector.enabled (settings_of st.connector).tenant_id
        (authenticated s st.connector) (expiring s st.connector)
        (elim r [ ok n ↦ some n | err e ↦ none ]))
      (with_world st w)

unfoldable pub handle_opsramp_status : Site → Handler
unfolding counted count_opsramp_agents
handle_opsramp_status s st = counted s (count_opsramp_agents st.world) st

-- The settings of a test: the switch and the interval are not read.
unfoldable pub tested : SettingsBody → OpsRampSettings
unfolding trim_url
tested b = record {
  base_url = trim_url b.base_url;
  tenant_id = b.tenant_id;
  client_key = b.client_key;
  client_secret = b.client_secret;
  poll_interval_seconds = 0;
  enabled = false;
  updated_at = 0;
}

unfoldable pub check_written : Site → Result CallError ConnectionCheck → Handler
check_written s (err e) = write_json 200 (check_failed_payload (s.call_error_text e))
check_written s (ok c) = write_json 200 (check_done c.tenant_ok c.tenant_error c.token c.expires_at)

unfoldable pub handle_opsramp_test : Site → Request → Handler
unfolding check_written check_settings tested
handle_opsramp_test s r =
    with_body (s.bodies.settings_or_none r.body)
      (λ b st. check_written s (check_settings s.remote (tested b) st.connector) st)

unfoldable pub token_written : Site → Result CallError (Text × ℕ) → Handler
token_written s (err e) = write_err 503 (s.call_error_text e)
token_written s (ok (token, expiry)) = write_json 200 (token_payload token expiry)

unfoldable pub handle_opsramp_token : Site → Request → Handler
unfolding token_written token_of
handle_opsramp_token s r =
    with_body (s.bodies.refresh_of r.body)
      (λ refresh st. token_written s (token_of s.remote st.connector refresh) st)

unfoldable pub handle_opsramp_agents : Site → Handler
unfolding list_opsramp_agents
handle_opsramp_agents s =
    call s list_opsramp_agents (λ agents. write_json 200 (inventory_listed agents (length agents)))

unfoldable pub sync_written : Site → Result CallError ℕ × World → Handler
sync_written s (err e, w) st = write_err 503 (s.call_error_text e) (with_world st w)
sync_written s (ok n, w) st = write_json 200 (synced_count n) (with_world st w)

unfoldable pub handle_opsramp_sync : Site → Handler
unfolding sync_written sync_now
handle_opsramp_sync s st = sync_written s (sync_now s.remote st.connector st.world) st

unfoldable pub ensured_client : Site → Config → Option Text → (Config → Handler) → Handler
ensured_client s c none k = k c
ensured_client s c (some e) k = write_err 503 (codes "OpsRamp authentication failed: " ++ e)

unfoldable pub required : Site → Option Config → (Config → Handler) → Handler
unfolding ensured_client
required s none k = write_err 503 (codes "OpsRamp connector is not enabled; configure it first")
required s (some c) k = ensured_client s c (s.remote.ensure_token c) k

-- `requireClient`, with an early return where there is none.
unfoldable pub require_client : Site → (Config → Handler) → Handler
unfolding required current_client
require_client s k st = required s (current_client st.connector) k st

-- `writeRawJSON`
unfoldable pub raw_or_object : Text → Text
raw_or_object raw = if is_empty raw then codes "{}" else raw

unfoldable pub proxied : Site → Result ApiError Text → Handler
unfolding raw_or_object
proxied s (ok raw) = write_json 200 (raw_json (raw_or_object raw))
proxied s (err e) = write_err 502 (s.api_error_text e)

module _ (s : Site) where
  unfoldable pub handle_opsramp_agent_info : Text → Handler
  unfolding require_client proxied get_agent_info
  handle_opsramp_agent_info platform =
      require_client s
        λ c. proxied s (get_agent_info c.tenant_id (s.remote.ask c) s.remote.valid platform)

  unfoldable pub handle_opsramp_updates : Request → Handler
  unfolding require_client proxied configure_auto_updates
  handle_opsramp_updates r = require_client s λ c.
      proxied s (
        configure_auto_updates c.tenant_id (s.remote.ask c) s.remote.valid (s.bodies.any_of r.body))

  unfoldable pub handle_opsramp_assign_policy : Text → Request → Handler
  unfolding require_client proxied assign_policy_devices
  handle_opsramp_assign_policy id r = require_client s λ c. proxied s (
      assign_policy_devices c.tenant_id (s.remote.ask c) s.remote.valid id (s.bodies.any_of r.body))

  unfoldable pub handle_opsramp_assign_profile : Text → Request → Handler
  unfolding require_client proxied assign_profile_devices
  handle_opsramp_assign_profile id r = require_client s λ c. proxied s (
      assign_profile_devices c.tenant_id (s.remote.ask c) s.remote.valid id
        (s.bodies.any_of r.body))

  unfoldable pub downloaded : Text → Result ApiError (List ℕ × Text) → Handler
  downloaded pkg (err e) = write_err 502 (s.api_error_text e)
  downloaded pkg (ok (bytes, ct)) =
      write_json 200
        (download bytes (if is_empty ct then codes "application/octet-stream" else ct) pkg)

  unfoldable pub handle_opsramp_download : Text → Text → Handler
  unfolding require_client downloaded download_agent
  handle_opsramp_download platform pkg =
      require_client s
        λ c. downloaded pkg (download_agent c.tenant_id (s.remote.ask c) platform pkg)
