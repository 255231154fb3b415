-- ===== src/Opamp/Messages/Offered.antt =====
-- The config that a push offers an agent, against the answer to a message behind it.
use opsramp_agent_orchestrat.Prelude.{
  ℕ, ◌≡◌, refl, ap, sym, ◌∙◌, Bool, false, not, Option, none, some, List, if◌then◌else◌, Text, [],
  ok, text_eq_refl, is_empty, Bool-cases, inl, inr,
}
use opsramp_agent_orchestrat.Prelude.Sorting.{sort_by}
use opsramp_agent_orchestrat.Model.{Agent, Group, ConfigVersion}
use opsramp_agent_orchestrat.Store.World.{Db, World, require, find}
use opsramp_agent_orchestrat.Store.Steps.{IsReliable, read-IsReliable}
use opsramp_agent_orchestrat.Store.Agents.{has_uid, has_group_name, get_agent}
use opsramp_agent_orchestrat.Store.Groups.{list_groups, current_row, current_config}
use opsramp_agent_orchestrat.Opamp.Hex.{hex_encode}
use opsramp_agent_orchestrat.Opamp.Registry.{Conn, Registry, register_conn}
use opsramp_agent_orchestrat.Opamp.Resolve.{
  merge, assigned, among, attrs_of, first_selecting, group_name, resolve_group,
}
use opsramp_agent_orchestrat.Opamp.Offers.{
  RemoteConfig, Offering, has_capability, accepts_remote_config, changed_config, config_offer,
  build_server_to_agent, build_offer_for_push,
}
use opsramp_agent_orchestrat.Opamp.Offers.Settled.{
  config_in, poll, push_in, build_server_to_agent-IsReliable, build_offer_for_push-IsReliable,
}
use opsramp_agent_orchestrat.Opamp.Messages.{
  answer, resolved, reported_of, Setup, AgentToServer, RemoteConfigStatus, persist, on_message,
}
use opsramp_agent_orchestrat.Opamp.Messages.Steady.{Choice, choice_of, IsSteady, persist-IsSteady}

unfoldable group_of : Text → Choice → List Group → Text
group_of default (group, caps, ids, others) groups =
    if not (is_empty (assigned group))
    then assigned group
    else first_selecting default (merge (merge [] ids) others)
        (sort_by group_name (sort_by (λ (g : Group). g.name) groups))

-- The config for an agent of a choice.
unfoldable config_of : Text → Choice → List Group → List ConfigVersion → Option RemoteConfig
config_of default c groups versions =
    let group = group_of default c groups in
    if has_capability c.1 accepts_remote_config
    then config_offer (current_row group versions (find (has_group_name group) groups))
    else none

resolve_group-IsReliable :
    (default : Text) (a : Agent) (w : World)
    → IsReliable w
    → resolve_group default a w ≡ (group_of default (choice_of a) w.db.groups, w)
unfolding resolve_group list_groups group_of among attrs_of
resolve_group-IsReliable default a w r = elim (Bool-cases (is_empty (assigned a.assigned_group))) [
  | inl e ↦ rw (e, read-IsReliable (λ db. ok (sort_by (λ (g : Group). g.name) db.groups)) w r) refl
  | inr e ↦ rw e refl
]

config_in-config_of :
    (default : Text) (a : Agent) (db : Db)
    → config_in (record a { resolved_group = group_of default (choice_of a) db.groups }) db
      ≡ config_of default (choice_of a) db.groups db.versions
unfolding config_in config_of current_config
config_in-config_of default a db = refl

config_in-resolved :
    (default : Text) (a : Agent) (w : World)
    → IsReliable w
    → config_in (resolved default a w).0 w.db
      ≡ config_of default (choice_of a) w.db.groups w.db.versions
unfolding resolved
config_in-resolved default a w r =
    ap (λ (p : Text × World). config_in (record a { resolved_group = p.0 }) w.db)
      (resolve_group-IsReliable default a w r)
    ∙ config_in-config_of default a w.db

pushed :
    (o : Offering) (default : Text) (a : Agent) (bytes : List ℕ) (w : World)
    → IsReliable w
    → (build_offer_for_push o (resolved default a w).0 bytes w).0.remote_config
      ≡ config_of default (choice_of a) w.db.groups w.db.versions
unfolding push_in
pushed o default a bytes w r =
    ap (λ x. x.0.remote_config)
      (build_offer_for_push-IsReliable o (resolved default a w).0 bytes w r)
    ∙ config_in-resolved default a w r

answered :
    (s : Setup) (msg : AgentToServer) (a : Agent) (w : World)
    → IsReliable w
    → (answer s msg (ok a, w)).0.remote_config
      ≡ changed_config
          (reported_of msg).last_remote_config_hash
          (config_of s.default_group (choice_of a) w.db.groups w.db.versions)
unfolding answer resolved poll
answered s msg a w r =
    let default : Text = s.default_group in
    let b : Agent = (resolved default a w).0 in
    let at : World → Option RemoteConfig = λ v.
      (build_server_to_agent s.offering b msg.instance_uid (reported_of msg) v).0.remote_config in
    ap (λ (p : Text × World). at p.1) (resolve_group-IsReliable default a w r)
    ∙ ap (λ x. x.0.remote_config)
        (build_server_to_agent-IsReliable s.offering b msg.instance_uid (reported_of msg) w r)
    ∙ ap (changed_config (reported_of msg).last_remote_config_hash)
        (config_in-resolved default a w r)

changed_config-same :
    (x : Option RemoteConfig) (c : RemoteConfig)
    → x ≡ some c
    → changed_config c.config_hash x ≡ none
unfolding changed_config
changed_config-same x c e = rw e (rw (text_eq_refl c.config_hash) refl)

-- An agent that got a config by a push and says in its status that it has that config is not offered
-- one in the answer, where the choice of its config and the configs are those of the push.
pub on_message-settled :
    (s : Setup) (conn : Conn) (msg : AgentToServer) (r : Registry) (w v : World) (row : Agent)
    (bytes : List ℕ) (rc : RemoteConfig) (status : RemoteConfigStatus)
    → IsReliable w
    → (build_offer_for_push s.offering (resolved s.default_group row w).0 bytes w).0.remote_config
      ≡ some rc
    → IsSteady (hex_encode msg.instance_uid) (choice_of row) w.db v
    → is_empty (hex_encode msg.instance_uid) ≡ false
    → msg.agent_description ≡ none
    → msg.remote_config_status ≡ some status
    → status.last_remote_config_hash ≡ rc.config_hash
    → (on_message s conn msg (r, v)).0.remote_config ≡ none
unfolding on_message get_agent reported_of require
on_message-settled s conn msg r w v row bytes rc status rel offer steady named plain said hash =
    let uid : Text = hex_encode msg.instance_uid in
    let new : Bool × Registry = register_conn uid conn r in
    let stored : World = persist s uid new.0 msg v in
    let h : IsSteady uid (choice_of row) w.db stored =
      persist-IsSteady uid (choice_of row) w.db s new.0 msg v plain steady in
    let got : get_agent uid stored ≡ (ok h.agent, stored) =
      read-IsReliable (λ db. require (find (has_uid uid) db.agents)) stored h.answers
      ∙ ap (λ x. (require x, stored)) h.found in
    let same : config_of s.default_group (choice_of h.agent) stored.db.groups stored.db.versions
        ≡ some rc =
      rw (h.chosen, h.groups, h.versions)
        (sym (pushed s.offering s.default_group row bytes w rel) ∙ offer) in
    let reports : (reported_of msg).last_remote_config_hash ≡ rc.config_hash = rw said hash in
    rw named (
      ap (λ x. (answer s msg x).0.remote_config) got
      ∙ answered s msg h.agent stored h.answers
      ∙ ap
          (λ x.
            changed_config x
              (config_of s.default_group (choice_of h.agent) stored.db.groups stored.db.versions))
          reports
      ∙ changed_config-same _ rc same)
