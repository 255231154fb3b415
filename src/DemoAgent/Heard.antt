-- ===== src/DemoAgent/Heard.antt =====
-- cmd/demo-agent/main.go and internal/opampserver: a pushed config, from the server to the agent and back.
use opsramp_agent_orchestrat.Prelude.{
  ℕ, ◌≡◌, refl, ◌∙◌, false, Option, none, some, List, [], ◌∷◌, Text, is_empty,
}
use opsramp_agent_orchestrat.Model.{Agent}
use opsramp_agent_orchestrat.Store.World.{World}
use opsramp_agent_orchestrat.Store.Steps.{IsReliable}
use opsramp_agent_orchestrat.Opamp.Hex.{hex_encode}
use opsramp_agent_orchestrat.Opamp.Registry.{Conn, Registry}
use opsramp_agent_orchestrat.Opamp.Offers.{RemoteConfig, build_offer_for_push}
use opsramp_agent_orchestrat.Opamp.Messages.{
  resolved, Setup, AgentToServer, RemoteConfigStatus, on_message,
}
use opsramp_agent_orchestrat.Opamp.Messages.Steady.{choice_of, IsSteady}
use opsramp_agent_orchestrat.Opamp.Messages.Offered.{on_message-settled}
use opsramp_agent_orchestrat.DemoAgent.{
  Disk, DemoAgent, written, write_files, apply_remote_config, on_offer,
}

abbrev first : List RemoteConfigStatus → Option RemoteConfigStatus
first [] = none
first (s ∷ statuses) = some s

-- The config status that the agent set last.
abbrev pub last_status : DemoAgent → Option RemoteConfigStatus
last_status a = first a.reported

-- Whether the files could be written or not, the agent sets a status with the config's hash.
written-last_status :
    (a : DemoAgent) (rc : RemoteConfig) (p : Disk × Option Text)
    → (status : RemoteConfigStatus) × (last_status (written a rc p) ≡ some status)
      × (status.last_remote_config_hash ≡ rc.config_hash)
unfolding written
written-last_status a rc (d, none) = (_, refl, refl)
written-last_status a rc (d, some e) = (_, refl, refl)

on_offer-last_status :
    (a : DemoAgent) (rc : RemoteConfig)
    → (status : RemoteConfigStatus) × (last_status (on_offer a (some rc)) ≡ some status)
      × (status.last_remote_config_hash ≡ rc.config_hash)
unfolding on_offer apply_remote_config
on_offer-last_status a rc = written-last_status a rc (write_files a.disk rc.config)

-- A demo agent that gets a config by a push is not offered one in the answer to a message with the
-- status that it set last, whatever else the message reports except a new description, and also where
-- it could not write a file of the config. The condition is that the database answers, that the
-- agent's row still has the assigned group, the capabilities and the attributes of the push when the
-- message comes, and that the groups and the config versions are those of the push.
pub on_offer-settles :
    (s : Setup) (conn : Conn) (msg : AgentToServer) (r : Registry) (a : DemoAgent) (row : Agent)
    (bytes : List ℕ) (rc : RemoteConfig) (w v : World)
    → IsReliable w
    → (build_offer_for_push s.offering (resolved s.default_group row w).0 bytes w).0.remote_config
      ≡ some rc
    → IsSteady (hex_encode msg.instance_uid) (choice_of row) w.db v
    → is_empty (hex_encode msg.instance_uid) ≡ false
    → msg.agent_description ≡ none
    → msg.remote_config_status ≡ last_status (on_offer a (some rc))
    → (on_message s conn msg (r, v)).0.remote_config ≡ none
on_offer-settles s conn msg r a row bytes rc w v rel offer steady named plain said =
    let (status, set, hash) = on_offer-last_status a rc in
    on_message-settled s conn msg r w v row bytes rc status rel offer steady named plain
      (said ∙ set) hash
