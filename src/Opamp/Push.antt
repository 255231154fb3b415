-- ===== src/Opamp/Push.antt =====
-- internal/opampserver/push.go: what is pushed to the agents that are connected. Sending is a parameter.
pub mod Pushing
use opsramp_agent_orchestrat.Prelude.{
  ℕ, zero, suc, ◌+◌, Bool, true, false, not, ◌&&◌, ◌||◌, Option, none, some, List, [], ◌∷◌, ◌++◌,
  ◌==◌, if◌then◌else◌, Text, codes, text_eq, is_empty, trim_space, trim_prefix, Result, ok, err,
}
use opsramp_agent_orchestrat.Prelude.Dicts
use opsramp_agent_orchestrat.Prelude.Dicts.{Dict}
use opsramp_agent_orchestrat.Model.{Agent}
use opsramp_agent_orchestrat.Store.World.{Error, World, Action}
use opsramp_agent_orchestrat.Store.Agents.{
  touch_agent, add_event, get_agent, list_agents, set_agent_status, save_agent_description,
  save_agent_health, save_agent_effective_config, save_agent_remote_config_status,
  save_agent_package_statuses, disconnected,
}
use opsramp_agent_orchestrat.Opamp.Hex.{hex_encode, hex_decode}
use opsramp_agent_orchestrat.Opamp.Registry.{
  Conn, Registry, conn_for, register_conn, close_conn, connected_uids,
}
use opsramp_agent_orchestrat.Opamp.Resolve.{Effect, resolve_group}
use opsramp_agent_orchestrat.Opamp.Proto.{
  KeyValue, Printing, ComponentHealth, EffectiveConfig, PackageStatuses, Json, attrs_to_map,
  store_description, health_from_proto, effective_config_to_string, effective_config_hash,
  package_statuses_to_map,
}
use opsramp_agent_orchestrat.Opamp.Offers.{
  ServerToAgent, reply, Offering, Reported, build_server_to_agent, build_offer_for_push,
}
use opsramp_agent_orchestrat.Opamp.Messages.{Setup, resolved}

pub data PushError : Type 0 where
  not_connected bad_uid send_failed : PushError
  store_error : Error → PushError

push_bytes :
    Setup
    → (Conn → ServerToAgent → Bool)
    → Conn
    → Agent
    → List ℕ × Bool
    → World
    → Result PushError (Unit {0}) × World
unfolding build_offer_for_push
push_bytes s send conn agent (bytes, false) w = (err bad_uid, w)
push_bytes s send conn agent (bytes, true) w =
    let offer = build_offer_for_push s.offering agent bytes w in
    (if send conn offer.0 then ok tt else err send_failed, offer.1)

push_loaded :
    Setup
    → (Conn → ServerToAgent → Bool)
    → Conn
    → Text
    → Result Error Agent × World
    → Result PushError (Unit {0}) × World
unfolding resolved push_bytes hex_decode
push_loaded s send conn uid (err e, w) = (err (store_error e), w)
push_loaded s send conn uid (ok agent, w) =
    let a = resolved s.default_group agent w in push_bytes s send conn a.0 (hex_decode uid) a.1

push_conn :
    Setup
    → (Conn → ServerToAgent → Bool)
    → Option Conn
    → Text
    → World
    → Result PushError (Unit {0}) × World
unfolding push_loaded get_agent
push_conn s send none uid w = (err not_connected, w)
push_conn s send (some conn) uid w = push_loaded s send conn uid (get_agent uid w)

unfoldable pub push_to_agent :
    Setup
    → (Conn → ServerToAgent → Bool)
    → Registry
    → Text
    → World
    → Result PushError (Unit {0}) × World
unfolding push_conn conn_for
push_to_agent s send r uid w = push_conn s send (conn_for r uid) uid w

-- An agent that has just gone counts as pushed, as does one that took the offer.
counts : Result PushError (Unit {0}) → Bool
counts (ok u) = true
counts (err not_connected) = true
counts (err other) = false

unfoldable pub is_member : Text → List Text → Bool
is_member u [] = false
is_member u (v ∷ vs) = text_eq v u || is_member u vs

push_agents :
    Setup
    → (Conn → ServerToAgent → Bool)
    → Registry
    → List Text
    → Text
    → List Agent
    → World
    → ℕ × World
unfolding resolved push_to_agent counts is_member
push_agents s send r up group [] w = (0, w)
push_agents s send r up group (agent ∷ agents) w =
    let skipped = push_agents s send r up group agents w in
    let a = resolved s.default_group agent w in
    let other = push_agents s send r up group agents a.1 in
    let pushed = push_to_agent s send r agent.instance_uid a.1 in
    let rest = push_agents s send r up group agents pushed.1 in
    if not (is_member agent.instance_uid up)
    then skipped
    else if not (text_eq a.0.resolved_group group)
    then other
    else if counts pushed.0
    then (rest.0 + 1, rest.1)
    else rest

push_listed :
    Setup
    → (Conn → ServerToAgent → Bool)
    → Registry
    → Text
    → Result Error (List Agent) × World
    → ℕ × World
unfolding push_agents connected_uids
push_listed s send r group (err e, w) = (0, w)
push_listed s send r group (ok agents, w) = push_agents s send r (connected_uids r) group agents w

unfoldable pub push_group :
    Setup → (Conn → ServerToAgent → Bool) → Registry → Text → World → ℕ × World
unfolding push_listed list_agents
push_group s send r group w = push_listed s send r group (list_agents w)
