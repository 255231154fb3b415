-- ===== src/Api/Relaying.antt =====
-- internal/api/opsramp.go: what the handlers that ask OpsRamp leave of the database.
use opsramp_agent_orchestrat.Prelude.{ℕ, refl, Option, none, some, List, Text, Result, ok, err}
use opsramp_agent_orchestrat.Store.Inventory.{list_opsramp_agents}
use opsramp_agent_orchestrat.Store.Sound.{list_opsramp_agents-Reads, count_opsramp_agents-Reads}
use opsramp_agent_orchestrat.Opsramp.Connector.{Config, current_client}
use opsramp_agent_orchestrat.Opsramp.Endpoints.{ApiError}
use opsramp_agent_orchestrat.Opsramp.Calls.{CallError, ConnectionCheck, token_of, check_settings}
use opsramp_agent_orchestrat.Api.Http.{Request, Site, Handler}
use opsramp_agent_orchestrat.Api.Spares.{Spares, call-Spares, with_body-Spares}
use opsramp_agent_orchestrat.Api.Connector.{
  handle_opsramp_get_config, counted, handle_opsramp_status, check_written, tested,
  handle_opsramp_test, token_written, handle_opsramp_token, handle_opsramp_agents, ensured_client,
  required, require_client, proxied, downloaded, handle_opsramp_agent_info, handle_opsramp_updates,
  handle_opsramp_assign_policy, handle_opsramp_assign_profile, handle_opsramp_download,
}

module _ (s : Site) where
  pub handle_opsramp_get_config-Spares : Spares handle_opsramp_get_config
  unfolding handle_opsramp_get_config
  handle_opsramp_get_config-Spares st = refl

  pub handle_opsramp_status-Spares : Spares (handle_opsramp_status s)
  unfolding handle_opsramp_status counted
  handle_opsramp_status-Spares st = count_opsramp_agents-Reads st.world

  check_written-Spares : (r : Result CallError ConnectionCheck) → Spares (check_written s r)
  unfolding check_written
  check_written-Spares (ok c) st = refl
  check_written-Spares (err e) st = refl

  -- Testing settings saves nothing.
  pub handle_opsramp_test-Spares : (r : Request) → Spares (handle_opsramp_test s r)
  unfolding handle_opsramp_test
  handle_opsramp_test-Spares r =
      with_body-Spares (s.bodies.settings_or_none r.body) _
        (λ b st. check_written-Spares (check_settings s.remote (tested b) st.connector) st)

  token_written-Spares : (r : Result CallError (Text × ℕ)) → Spares (token_written s r)
  unfolding token_written
  token_written-Spares (ok (t, e)) st = refl
  token_written-Spares (err e) st = refl

  pub handle_opsramp_token-Spares : (r : Request) → Spares (handle_opsramp_token s r)
  unfolding handle_opsramp_token
  handle_opsramp_token-Spares r =
      with_body-Spares (s.bodies.refresh_of r.body) _
        (λ refresh st. token_written-Spares (token_of s.remote st.connector refresh) st)

  pub handle_opsramp_agents-Spares : Spares (handle_opsramp_agents s)
  unfolding handle_opsramp_agents
  handle_opsramp_agents-Spares =
      call-Spares s list_opsramp_agents _ list_opsramp_agents-Reads (λ agents st. refl)

  ensured_client-Spares :
      (c : Config) (o : Option Text) (k : Config → Handler)
      → ((c : Config) → Spares (k c))
      → Spares (ensured_client s c o k)
  unfolding ensured_client
  ensured_client-Spares c none k q = q c
  ensured_client-Spares c (some e) k q = λ st. refl

  required-Spares :
      (o : Option Config) (k : Config → Handler)
      → ((c : Config) → Spares (k c))
      → Spares (required s o k)
  unfolding required
  required-Spares none k q = λ st. refl
  required-Spares (some c) k q = ensured_client-Spares c (s.remote.ensure_token c) k q

  require_client-Spares :
      (k : Config → Handler) → ((c : Config) → Spares (k c)) → Spares (require_client s k)
  unfolding require_client
  require_client-Spares k q st = required-Spares (current_client st.connector) k q st

  proxied-Spares : (r : Result ApiError Text) → Spares (proxied s r)
  unfolding proxied
  proxied-Spares (ok raw) st = refl
  proxied-Spares (err e) st = refl

  downloaded-Spares :
      (pkg : Text) (r : Result ApiError (List ℕ × Text)) → Spares (downloaded s pkg r)
  unfolding downloaded
  downloaded-Spares pkg (ok (bytes, ct)) st = refl
  downloaded-Spares pkg (err e) st = refl

  pub handle_opsramp_agent_info-Spares :
      (platform : Text) → Spares (handle_opsramp_agent_info s platform)
  unfolding handle_opsramp_agent_info
  handle_opsramp_agent_info-Spares platform = require_client-Spares _ (λ c. proxied-Spares _)

  pub handle_opsramp_updates-Spares : (r : Request) → Spares (handle_opsramp_updates s r)
  unfolding handle_opsramp_updates
  handle_opsramp_updates-Spares r = require_client-Spares _ (λ c. proxied-Spares _)

  pub handle_opsramp_assign_policy-Spares :
      (id : Text) (r : Request) → Spares (handle_opsramp_assign_policy s id r)
  unfolding handle_opsramp_assign_policy
  handle_opsramp_assign_policy-Spares id r = require_client-Spares _ (λ c. proxied-Spares _)

  pub handle_opsramp_assign_profile-Spares :
      (id : Text) (r : Request) → Spares (handle_opsramp_assign_profile s id r)
  unfolding handle_opsramp_assign_profile
  handle_opsramp_assign_profile-Spares id r = require_client-Spares _ (λ c. proxied-Spares _)

  pub handle_opsramp_download-Spares :
      (platform pkg : Text) → Spares (handle_opsramp_download s platform pkg)
  unfolding handle_opsramp_download
  handle_opsramp_download-Spares platform pkg =
      require_client-Spares _ (λ c. downloaded-Spares pkg _)
