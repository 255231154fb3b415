-- ===== src/Tests/Serving.antt =====
-- The OpAMP server's theorems on the sample database.
use opsramp_agent_orchestrat.Prelude.{
  ◌≡◌, ◌≢◌, refl, inl, true, none, some, List, [], ◌∷◌, codes, text_eq, arith,
}
use opsramp_agent_orchestrat.Prelude.Dicts
use opsramp_agent_orchestrat.Prelude.Dicts.{get, Dict}
use opsramp_agent_orchestrat.Store.World.{find, require, tick}
use opsramp_agent_orchestrat.Store.Agents.{connected, disconnected, has_uid}
use opsramp_agent_orchestrat.Store.Groups.{current_config}
use opsramp_agent_orchestrat.Opamp.Hex.{hex_encode}
use opsramp_agent_orchestrat.Opamp.Registry.{Registry, empty, conn_for, uid_of}
use opsramp_agent_orchestrat.Opamp.Registry.Traces.{Event, message, run, speaks_for, run-conn_for}
use opsramp_agent_orchestrat.Opamp.Resolve.{assigned, attrs_of, resolve_group}
use opsramp_agent_orchestrat.Opamp.Resolve.Least.{Governs, resolve_group-Governs}
use opsramp_agent_orchestrat.Opamp.Offers.{
  Reported, RemoteConfig, config_offer, has_capability, accepts_remote_config,
  build_server_to_agent,
}
use opsramp_agent_orchestrat.Opamp.Offers.Settled.{build_server_to_agent-offers_config}
use opsramp_agent_orchestrat.Opamp.Messages.{AgentToServer, on_message, on_connection_close}
use opsramp_agent_orchestrat.Opamp.Messages.Connected.{
  on_message-connects, on_connection_close-superseded,
}
use opsramp_agent_orchestrat.Opamp.Messages.Kept.{Says}
use opsramp_agent_orchestrat.Tests.Samples.{offering, setup, agent, world}

-- Connection 1 speaks for the agent, and connection 2 has taken its place.
abbrev events : List Event
events = message 2 (codes "0a") ∷ message 1 (codes "0a") ∷ []

run-conn_for_example : speaks_for events 2 ≡ some (codes "0a")
unfolding run speaks_for conn_for get text_eq Dicts.put
run-conn_for_example = run-conn_for events (codes "0a") 2 (inl refl, (inl refl, tt)) refl

resolve_group-Governs_example :
    Governs
      (codes "default")
      (attrs_of agent)
      world.db.groups
      (resolve_group (codes "default") agent world).0
unfolding tick assigned
resolve_group-Governs_example = resolve_group-Governs (codes "default") agent world refl refl

abbrev nothing : Reported
nothing = record { last_remote_config_hash = []; all_packages_hash = [] }

abbrev offered : RemoteConfig
offered = record {
  config = (codes "a.yaml", record { body = codes "x: 1"; content_type = codes "text/yaml" }) ∷ [];
  config_hash = 171 ∷ 1 ∷ [];
}

build_server_to_agent-offers_config_example :
    (has_capability agent.capabilities accepts_remote_config ≡ true)
    × (offered.config_hash ≢ nothing.last_remote_config_hash)
    × (config_offer (current_config agent.resolved_group world.db) ≡ some offered)
unfolding build_server_to_agent find text_eq require
build_server_to_agent-offers_config_example =
    build_server_to_agent-offers_config offering agent (10 ∷ []) nothing world offered refl refl

abbrev hello : AgentToServer
hello = record {
  instance_uid = 10 ∷ [];
  capabilities = 10;
  agent_description = none;
  health = none;
  effective_config = none;
  remote_config_status = none;
  package_statuses = none;
}

on_message-connects_example :
    (conn_for (on_message setup 3 hello (empty, world)).1 (hex_encode (10 ∷ [])) ≡ some 3)
    × Says (hex_encode (10 ∷ [])) connected (on_message setup 3 hello (empty, world)).2
unfolding hex_encode
on_message-connects_example = on_message-connects setup 3 hello empty world refl refl

abbrev two : Registry
two = record { by_uid = (codes "0a", 2) ∷ []; by_conn = (1, codes "0a") ∷ (2, codes "0a") ∷ [] }

on_connection_close-superseded_example :
    (conn_for (on_connection_close 1 (two, world)).0 (codes "0a") ≡ some 2)
    × Says (codes "0a") disconnected (on_connection_close 1 (two, world)).1
unfolding uid_of conn_for get text_eq find has_uid
on_connection_close-superseded_example =
    on_connection_close-superseded 1 2 (codes "0a") agent two world refl refl refl (ground arith)
      refl
