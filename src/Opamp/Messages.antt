-- ===== src/Opamp/Messages.antt =====
-- internal/opampserver/message.go and the callbacks of server.go: what the server does when an agent
-- reports and when its connection closes. An error that is only logged is dropped.
pub mod Kept
pub mod Steady
pub mod Offered
pub mod Connected
use opsramp_agent_orchestrat.Prelude.{
  ℕ, zero, suc, ◌+◌, Bool, true, false, not, ◌&&◌, ◌||◌, Option, none, some, List, [], ◌∷◌, ◌++◌,
  ◌==◌, if◌then◌else◌, Text, codes, text_eq, is_empty, trim_space, trim_prefix, Result, ok, err,
}
use opsramp_agent_orchestrat.Prelude.Dicts
use opsramp_agent_orchestrat.Prelude.Dicts.{Dict}
use opsramp_agent_orchestrat.Model.{Agent}
use opsramp_agent_orchestrat.Store.World.{Error, World, Action}
use opsramp_agent_orchestrat.Store.Agents.{
  touch_agent, add_event, get_agent, list_agents, set_agent_status, save_agent_description,
  save_agent_health, save_agent_effective_config, save_agent_remote_config_status,
  save_agent_package_statuses, disconnected,
}
use opsramp_agent_orchestrat.Opamp.Hex.{hex_encode, hex_decode}
use opsramp_agent_orchestrat.Opamp.Registry.{
  Conn, Registry, conn_for, register_conn, close_conn, connected_uids,
}
use opsramp_agent_orchestrat.Opamp.Resolve.{Effect, resolve_group}
use opsramp_agent_orchestrat.Opamp.Proto.{
  KeyValue, Printing, ComponentHealth, EffectiveConfig, PackageStatuses, Json, attrs_to_map,
  store_description, health_from_proto, effective_config_to_string, effective_config_hash,
  package_statuses_to_map,
}
use opsramp_agent_orchestrat.Opamp.Offers.{
  ServerToAgent, reply, Offering, Reported, build_server_to_agent, build_offer_for_push,
}

pub record Description : Type 0 where
  pub identifying_attributes : List (Option KeyValue)
  pub non_identifying_attributes : List (Option KeyValue)

pub record RemoteConfigStatus : Type 0 where
  pub last_remote_config_hash : List ℕ
  pub status : ℕ
  pub error_message : Text

-- The protocol's `RemoteConfigStatuses`.
abbrev pub applied : ℕ
applied = 1

abbrev pub failed : ℕ
failed = 3

pub record AgentToServer : Type 0 where
  pub instance_uid : List ℕ
  pub capabilities : ℕ
  pub agent_description : Option Description
  pub health : Option ComponentHealth
  pub effective_config : Option EffectiveConfig
  pub remote_config_status : Option RemoteConfigStatus
  pub package_statuses : Option PackageStatuses

-- The configuration and the parameters.
pub record Setup : Type 0 where
  pub default_group : Text
  pub auth_token : Text
  pub offering : Offering
  pub printing : Printing
  pub json : Json

-- `if err := m; err != nil { log }`
abbrev pub logged : Action (Unit {0}) → World → World
logged m w = (m w).1

-- `Authorization`, against the token.
unfoldable pub check_bearer : Text → Text → Bool
unfolding trim_space trim_prefix
check_bearer header token = text_eq (trim_space (trim_prefix (codes "Bearer ") header)) token

-- Whether `OnConnecting` lets the connection in.
unfoldable pub accepts : Setup → Text → Bool
unfolding check_bearer
accepts s header = is_empty s.auth_token || check_bearer header s.auth_token

unfoldable close_row : Option Text → World → World
unfolding set_agent_status add_event
close_row none w = w
close_row (some uid) w =
    logged (add_event uid disconnected (codes "OpAMP connection closed"))
      (logged (set_agent_status uid disconnected) w)

unfoldable pub on_connection_close : Conn → Registry × World → Registry × World
unfolding close_conn close_row
on_connection_close conn (r, w) = ((close_conn conn r).1, close_row (close_conn conn r).0 w)

unfoldable pub record_remote_config_event : Text → RemoteConfigStatus → World → World
unfolding add_event hex_encode
record_remote_config_event uid rc w =
    if rc.status == applied
    then logged
        (add_event uid (codes "config-applied")
          (codes "hash=" ++ hex_encode rc.last_remote_config_hash))
        w
    else if rc.status == failed
    then logged (add_event uid (codes "config-failed") rc.error_message) w
    else w

unfoldable persist_description : Setup → Text → ℕ → Option Description → World → World
unfolding attrs_to_map store_description save_agent_description
persist_description s uid caps none w = w
persist_description s uid caps (some d) w =
    logged
      (save_agent_description uid (
        store_description (attrs_to_map s.printing d.identifying_attributes)
          (attrs_to_map s.printing d.non_identifying_attributes) caps))
      w

unfoldable persist_health : Text → Option ComponentHealth → World → World
unfolding save_agent_health health_from_proto
persist_health uid none w = w
persist_health uid (some h) w = logged (save_agent_health uid (health_from_proto h)) w

unfoldable persist_effective_config : Setup → Text → Option EffectiveConfig → World → World
unfolding save_agent_effective_config effective_config_to_string effective_config_hash
persist_effective_config s uid none w = w
persist_effective_config s uid (some ec) w =
    logged
      (save_agent_effective_config uid (effective_config_to_string ec)
        (effective_config_hash s.offering.sha256 ec))
      w

unfoldable persist_remote_config_status : Text → Option RemoteConfigStatus → World → World
unfolding save_agent_remote_config_status record_remote_config_event hex_encode
persist_remote_config_status uid none w = w
persist_remote_config_status uid (some rc) w = record_remote_config_event uid rc (
    logged
      (save_agent_remote_config_status uid rc.status rc.error_message
        (hex_encode rc.last_remote_config_hash))
      w)

unfoldable persist_package_statuses : Setup → Text → Option PackageStatuses → World → World
unfolding save_agent_package_statuses package_statuses_to_map
persist_package_statuses s uid none w = w
persist_package_statuses s uid (some ps) w =
    logged (save_agent_package_statuses uid (package_statuses_to_map s.json ps)) w

unfoldable pub persist_reported_state : Setup → Text → AgentToServer → World → World
unfolding persist_description persist_health persist_effective_config persist_remote_config_status
    persist_package_statuses
persist_reported_state s uid msg w = persist_package_statuses s uid msg.package_statuses (
    persist_remote_config_status uid msg.remote_config_status (
      persist_effective_config s uid msg.effective_config (
        persist_health uid msg.health
          (persist_description s uid msg.capabilities msg.agent_description w))))

-- The getters give nothing on a section that is not there.
unfoldable pub reported_of : AgentToServer → Reported
reported_of msg = record {
  last_remote_config_hash = elim msg.remote_config_status [
    | none ↦ []
    | some rc ↦ rc.last_remote_config_hash
  ];
  all_packages_hash = elim msg.package_statuses [
    | none ↦ []
    | some ps ↦ ps.server_provided_all_packages_hash
  ];
}

-- `agent.ResolvedGroup = m.resolveGroup(ctx, agent)`
unfoldable pub resolved : Text → Agent → Effect Agent
unfolding resolve_group
resolved default a w =
    (record a { resolved_group = (resolve_group default a w).0 }, (resolve_group default a w).1)

unfoldable answer : Setup → AgentToServer → Result Error Agent × World → ServerToAgent × World
unfolding resolved reported_of build_server_to_agent
answer s msg (err e, w) = (reply msg.instance_uid, w)
answer s msg (ok agent, w) =
    let a = resolved s.default_group agent w in
    build_server_to_agent s.offering a.0 msg.instance_uid (reported_of msg) a.1

-- The rows that a message of a known UID writes.
unfoldable pub persist : Setup → Text → Bool → AgentToServer → World → World
unfolding touch_agent add_event persist_reported_state
persist s uid is_new msg w =
    let touched = logged (touch_agent uid) w in
    persist_reported_state s uid msg (
      if is_new
      then logged (add_event uid (codes "connected") (codes "OpAMP connection established")) touched
      else touched)

unfoldable pub on_message :
    Setup → Conn → AgentToServer → Registry × World → ServerToAgent × Registry × World
unfolding register_conn persist get_agent answer hex_encode
on_message s conn msg (r, w) =
    let uid = hex_encode msg.instance_uid in
    if is_empty uid
    then (reply msg.instance_uid, r, w)
    else let new = register_conn uid conn r in
      let out = answer s msg (get_agent uid (persist s uid new.0 msg w)) in (out.0, new.1, out.1)
