-- ===== src/Opamp/Offers/Settled.antt =====
-- What an agent is offered, against what it reports.
use opsramp_agent_orchestrat.Prelude.{
  ◌≡◌, ◌≢◌, refl, ap, sym, ◌∙◌, true, Option, none, some, List, if◌then◌else◌, text_eq, text_eq_iff,
  Bool-cases, inl, inr, arith, ℕ,
}
use opsramp_agent_orchestrat.Model.{Agent}
use opsramp_agent_orchestrat.Store.World.{World, Db}
use opsramp_agent_orchestrat.Store.Steps.{IsReliable, read-IsReliable}
use opsramp_agent_orchestrat.Store.Groups.{current_config, get_current_config}
use opsramp_agent_orchestrat.Store.Packages.{group_packages, list_group_packages}
use opsramp_agent_orchestrat.Opamp.Offers.{
  RemoteConfig, PackagesAvailable, ServerToAgent, Offering, Reported, changed_config,
  changed_packages, desired_config, desired_packages, config_offer, packages_offer, has_capability,
  accepts_remote_config, accepts_packages, build_server_to_agent, build_offer_for_push,
}

unfoldable pub config_in : Agent → Db → Option RemoteConfig
config_in agent db =
    if has_capability agent.capabilities accepts_remote_config
    then config_offer (current_config agent.resolved_group db)
    else none

unfoldable pub packages_in : Offering → Agent → Db → Option PackagesAvailable
packages_in o agent db =
    if has_capability agent.capabilities accepts_packages
    then packages_offer o (group_packages agent.resolved_group db)
    else none

desired_config-IsReliable :
    (agent : Agent) (w : World) → IsReliable w → desired_config agent w ≡ (config_in agent w.db, w)
unfolding desired_config get_current_config config_in
desired_config-IsReliable agent w r =
    elim (Bool-cases (has_capability agent.capabilities accepts_remote_config)) [
      | inl e ↦ rw (e, read-IsReliable (current_config agent.resolved_group) w r) refl
      | inr e ↦ rw e refl
    ]

desired_packages-IsReliable :
    (o : Offering) (agent : Agent) (w : World)
    → IsReliable w
    → desired_packages o agent w ≡ (packages_in o agent w.db, w)
unfolding desired_packages list_group_packages packages_in
desired_packages-IsReliable o agent w r =
    elim (Bool-cases (has_capability agent.capabilities accepts_packages)) [
      | inl e ↦ rw (e, read-IsReliable (group_packages agent.resolved_group) w r) refl
      | inr e ↦ rw e refl
    ]

unfoldable pub poll : Offering → Agent → List ℕ → Reported → Db → ServerToAgent
poll o agent uid reported db = record {
  instance_uid = uid;
  remote_config = changed_config reported.last_remote_config_hash (config_in agent db);
  packages_available = changed_packages reported.all_packages_hash (packages_in o agent db);
}

pub build_server_to_agent-IsReliable :
    (o : Offering) (agent : Agent) (uid : List ℕ) (reported : Reported) (w : World)
    → IsReliable w
    → build_server_to_agent o agent uid reported w ≡ (poll o agent uid reported w.db, w)
unfolding build_server_to_agent poll
build_server_to_agent-IsReliable o agent uid reported w r =
    rw (desired_config-IsReliable agent w r, desired_packages-IsReliable o agent w r) refl

unfoldable pub push_in : Offering → Agent → List ℕ → Db → ServerToAgent
push_in o agent uid db = record {
  instance_uid = uid;
  remote_config = config_in agent db;
  packages_available = packages_in o agent db;
}

pub build_offer_for_push-IsReliable :
    (o : Offering) (agent : Agent) (uid : List ℕ) (w : World)
    → IsReliable w
    → build_offer_for_push o agent uid w ≡ (push_in o agent uid w.db, w)
unfolding build_offer_for_push push_in
build_offer_for_push-IsReliable o agent uid w r =
    rw (desired_config-IsReliable agent w r, desired_packages-IsReliable o agent w r) refl

changed_config-some :
    (reported : List ℕ) (x : Option RemoteConfig) (c : RemoteConfig)
    → changed_config reported x ≡ some c
    → (x ≡ some c) × (c.config_hash ≢ reported)
unfolding changed_config
changed_config-some reported none c h = ground (arith, h)
changed_config-some reported (some d) c h = elim (Bool-cases (text_eq d.config_hash reported)) [
  | inl e ↦ ground (arith, e, h)
  | inr e ↦
      let same : d ≡ c = ground (arith, e, h) in
      (
        ap some same,
        λ q. ground (
          arith,
          e,
          text_eq_iff d.config_hash reported,
          ap (λ (x : RemoteConfig). x.config_hash) same ∙ q,
        ),
      )
]

config_in-some :
    (agent : Agent) (db : Db) (c : RemoteConfig)
    → config_in agent db ≡ some c
    → (has_capability agent.capabilities accepts_remote_config ≡ true)
      × (config_offer (current_config agent.resolved_group db) ≡ some c)
unfolding config_in
config_in-some agent db c h =
    elim (Bool-cases (has_capability agent.capabilities accepts_remote_config)) [
      | inl e ↦ (e, ground (arith, e, h))
      | inr e ↦ ground (arith, e, h)
    ]

-- An offered config is another than the agent reports, for an agent that accepts one, and it is the
-- current version of its group, which has files, while the database answers.
pub build_server_to_agent-offers_config :
    (o : Offering) (agent : Agent) (uid : List ℕ) (reported : Reported) (w : World)
    (c : RemoteConfig)
    → IsReliable w
    → (build_server_to_agent o agent uid reported w).0.remote_config ≡ some c
    → (has_capability agent.capabilities accepts_remote_config ≡ true)
      × (c.config_hash ≢ reported.last_remote_config_hash)
      × (config_offer (current_config agent.resolved_group w.db) ≡ some c)
unfolding poll
build_server_to_agent-offers_config o agent uid reported w c r h =
    let response =
      ap (λ x. x.0.remote_config) (build_server_to_agent-IsReliable o agent uid reported w r) in
    let (found, differs) =
      changed_config-some reported.last_remote_config_hash (config_in agent w.db) c
        (sym response ∙ h) in
    let (able, current) = config_in-some agent w.db c found in (able, differs, current)
