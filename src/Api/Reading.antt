-- ===== src/Api/Reading.antt =====
-- internal/api: what the handlers of GET requests, but for those of the connector, leave of the database.
use opsramp_agent_orchestrat.Prelude.{◌≡◌, refl, ap, ◌∙◌, List, [], ◌∷◌, Text, Result, ok, err}
use opsramp_agent_orchestrat.Model.{Agent, Group, OpsRampAgent}
use opsramp_agent_orchestrat.Store.World.{Error, World}
use opsramp_agent_orchestrat.Store.Agents.{list_agents, get_agent, list_events}
use opsramp_agent_orchestrat.Store.Groups.{
  list_groups, get_group, get_current_config, list_config_versions,
}
use opsramp_agent_orchestrat.Store.Packages.{
  list_packages, get_package, get_package_content, list_group_packages,
}
use opsramp_agent_orchestrat.Store.Inventory.{list_opsramp_agents}
use opsramp_agent_orchestrat.Store.Jobs.{list_deploy_jobs, get_deploy_job}
use opsramp_agent_orchestrat.Store.Sound.{
  get_agent-Reads, list_agents-Reads, list_events-Reads, list_groups-Reads, get_group-Reads,
  get_current_config-Reads, list_config_versions-Reads, get_package-Reads,
  get_package_content-Reads, list_packages-Reads, list_group_packages-Reads,
  list_opsramp_agents-Reads, list_deploy_jobs-Reads, get_deploy_job-Reads,
}
use opsramp_agent_orchestrat.Opamp.Registry.{connected_uids}
use opsramp_agent_orchestrat.Opamp.Messages.{resolved}
use opsramp_agent_orchestrat.Opamp.Push.{
  push_to_agent, PushError, not_connected, bad_uid, send_failed, store_error,
}
use opsramp_agent_orchestrat.Opamp.Push.Pushing.{resolved-db, push_to_agent-db}
use opsramp_agent_orchestrat.Api.Http.{State, Site, with_world}
use opsramp_agent_orchestrat.Api.Spares.{Spares, call-Spares, map_store_err-Spares}
use opsramp_agent_orchestrat.Api.Agents.{
  shown_agents, list_shown, show_agent, handle_list_agents, handle_get_agent, pushed,
  handle_push_agent, handle_list_events,
}
use opsramp_agent_orchestrat.Api.Groups.{
  handle_list_groups, handle_get_group, handle_get_group_config, handle_list_config_versions,
  handle_list_group_packages,
}
use opsramp_agent_orchestrat.Api.Packages.{
  handle_list_packages, handle_get_package, handle_package_content,
}
use opsramp_agent_orchestrat.Api.Deploy.{
  evaluated, handle_reconcile, handle_deploy_list, handle_deploy_get,
}
use opsramp_agent_orchestrat.Api.Routes.{ready, handle_ready}

shown_agents-db :
    (default : Text) (up : List Text) (agents : List Agent) (w : World)
    → (shown_agents default up agents w).1.db ≡ w.db
unfolding shown_agents
shown_agents-db default up [] w = refl
shown_agents-db default up (a ∷ more) w =
    shown_agents-db default up more (resolved default a w).1 ∙ resolved-db default a w

module _ (s : Site) where
  pub handle_list_agents-Spares : Spares (handle_list_agents s)
  unfolding handle_list_agents list_shown
  handle_list_agents-Spares =
      call-Spares s list_agents (list_shown s) list_agents-Reads λ agents st.
        shown_agents-db s.setup.default_group (connected_uids st.registry) agents st.world

  pub handle_get_agent-Spares : (uid : Text) → Spares (handle_get_agent s uid)
  unfolding handle_get_agent show_agent
  handle_get_agent-Spares uid =
      call-Spares s (get_agent uid) (show_agent s uid) (get_agent-Reads uid)
        (λ a st. resolved-db s.setup.default_group a st.world)

  pushed-Spares : (r : Result PushError (Unit {0})) → Spares (pushed s r)
  unfolding pushed
  pushed-Spares (ok u) st = refl
  pushed-Spares (err not_connected) st = refl
  pushed-Spares (err bad_uid) st = refl
  pushed-Spares (err send_failed) st = refl
  pushed-Spares (err (store_error e)) st = map_store_err-Spares s e st

  pub handle_push_agent-Spares : (uid : Text) → Spares (handle_push_agent s uid)
  unfolding handle_push_agent
  handle_push_agent-Spares uid st =
      let out = push_to_agent s.setup s.send st.registry uid st.world in
      pushed-Spares out.0 (with_world st out.1)
      ∙ push_to_agent-db s.setup s.send st.registry uid st.world

  pub handle_list_events-Spares : Spares (handle_list_events s)
  unfolding handle_list_events
  handle_list_events-Spares =
      call-Spares s (list_events 200) _ (list_events-Reads 200) (λ events st. refl)

  pub handle_list_groups-Spares : Spares (handle_list_groups s)
  unfolding handle_list_groups
  handle_list_groups-Spares = call-Spares s list_groups _ list_groups-Reads (λ gs st. refl)

  pub handle_get_group-Spares : (name : Text) → Spares (handle_get_group s name)
  unfolding handle_get_group
  handle_get_group-Spares name =
      call-Spares s (get_group name) _ (get_group-Reads name) (λ g st. refl)

  pub handle_get_group_config-Spares : (name : Text) → Spares (handle_get_group_config s name)
  unfolding handle_get_group_config
  handle_get_group_config-Spares name =
      call-Spares s (get_current_config name) _ (get_current_config-Reads name) (λ cv st. refl)

  pub handle_list_config_versions-Spares :
      (name : Text) → Spares (handle_list_config_versions s name)
  unfolding handle_list_config_versions
  handle_list_config_versions-Spares name =
      call-Spares s (list_config_versions name) _ (list_config_versions-Reads name) (λ vs st. refl)

  pub handle_list_group_packages-Spares : (name : Text) → Spares (handle_list_group_packages s name)
  unfolding handle_list_group_packages
  handle_list_group_packages-Spares name =
      call-Spares s (list_group_packages name) _ (list_group_packages-Reads name) (λ ps st. refl)

  pub handle_list_packages-Spares : Spares (handle_list_packages s)
  unfolding handle_list_packages
  handle_list_packages-Spares = call-Spares s list_packages _ list_packages-Reads (λ ps st. refl)

  pub handle_get_package-Spares : (name : Text) → Spares (handle_get_package s name)
  unfolding handle_get_package
  handle_get_package-Spares name =
      call-Spares s (get_package name) _ (get_package-Reads name) (λ p st. refl)

  pub handle_package_content-Spares : (name : Text) → Spares (handle_package_content s name)
  unfolding handle_package_content
  handle_package_content-Spares name =
      call-Spares s (get_package_content name) _ (get_package_content-Reads name) (λ c st. refl)

  evaluated-Spares :
      (p : Result Error (List OpsRampAgent) × World) (st : State) → (evaluated s p st).1.world ≡ p.1
  unfolding evaluated
  evaluated-Spares (ok agents, w) st = refl
  evaluated-Spares (err e, w) st = refl

  pub handle_reconcile-Spares : Spares (handle_reconcile s)
  unfolding handle_reconcile
  handle_reconcile-Spares st =
      ap (λ (w : World). w.db) (evaluated-Spares (list_opsramp_agents st.world) st)
      ∙ list_opsramp_agents-Reads st.world

  pub handle_deploy_list-Spares : Spares (handle_deploy_list s)
  unfolding handle_deploy_list
  handle_deploy_list-Spares =
      call-Spares s (list_deploy_jobs 50) _ (list_deploy_jobs-Reads 50) (λ jobs st. refl)

  pub handle_deploy_get-Spares : (id : Text) → Spares (handle_deploy_get s id)
  unfolding handle_deploy_get
  handle_deploy_get-Spares id =
      call-Spares s (get_deploy_job id) _ (get_deploy_job-Reads id) (λ job st. refl)

  ready-Spares : (p : Result Error (List Group) × World) (st : State) → (ready s p st).1.world ≡ p.1
  unfolding ready
  ready-Spares (ok gs, w) st = refl
  ready-Spares (err e, w) st = refl

  pub handle_ready-Spares : Spares (handle_ready s)
  unfolding handle_ready
  handle_ready-Spares st =
      ap (λ (w : World). w.db) (ready-Spares (list_groups st.world) st) ∙ list_groups-Reads st.world
