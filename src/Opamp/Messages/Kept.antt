-- ===== src/Opamp/Messages/Kept.antt =====
-- The agent's row behind the writes of a message.
use opsramp_agent_orchestrat.Prelude.{
  ℕ, ◌+◌, ◌≡◌, refl, ap, sym, subst, ◌∙◌, Bool, true, false, Option, none, some, List, [], ◌∷◌,
  ◌++◌, ◌==◌, Text, text_eq, text_eq_refl, Result, Bool-cases, Option-cases, inl, inr,
}
use opsramp_agent_orchestrat.Model.{Agent}
use opsramp_agent_orchestrat.Store.World.{Error, Db, World, find, update_where, upsert}
use opsramp_agent_orchestrat.Store.Rows.{find-update_where, find-holds, find-upsert}
use opsramp_agent_orchestrat.Store.Steps.{IsReliable, write-IsReliable}
use opsramp_agent_orchestrat.Store.Agents.{
  connected, has_uid, new_agent, update_agent, touch_agent, add_event, save_agent_description,
  save_agent_health, save_agent_effective_config, save_agent_remote_config_status,
  save_agent_package_statuses,
}
use opsramp_agent_orchestrat.Opamp.Proto.{ComponentHealth, EffectiveConfig, PackageStatuses}
use opsramp_agent_orchestrat.Opamp.Messages.{
  applied, failed, Setup, AgentToServer, Description, RemoteConfigStatus, logged,
  persist_description, persist_health, persist_effective_config, persist_remote_config_status,
  persist_package_statuses, persist, persist_reported_state, record_remote_config_event,
}

-- The row of the UID has the status.
pub record HasStatus (uid status : Text) (db : Db) : Type 0 where
  pub row : Agent
  pub found : find (has_uid uid) db.agents ≡ some row
  pub said : row.status ≡ status

-- The database answers, and the row of the UID has the status.
abbrev pub Says : Text → Text → World → Type 0
Says uid status w = HasStatus uid status w.db × IsReliable w

-- A write that keeps what the row says.
abbrev pub Keeps : Text → Text → (World → World) → Type 0
Keeps uid status step = (w : World) → Says uid status w → Says uid status (step w)

-- An update of the row that leaves its UID.
pub updated :
    (uid : Text) (f : Agent → Agent) (agents : List Agent) (row : Agent)
    → ((a : Agent) → (f a).instance_uid ≡ a.instance_uid)
    → find (has_uid uid) agents ≡ some row
    → find (has_uid uid) (update_where (has_uid uid) f agents) ≡ some (f row)
unfolding has_uid
updated uid f agents row uids found =
    let keeps : (a : Agent) → has_uid uid (f a) ≡ has_uid uid a =
      λ a. ap (λ u. text_eq u uid) (uids a) in
    rw
      (
        find-update_where (has_uid uid) (has_uid uid) f agents keeps,
        found,
        find-holds (has_uid uid) agents row found,
      )
      refl

-- An update gives the row's status where it had it before, or whatever it was.
pub update_agent-Says :
    (uid status : Text) (f : ℕ → Agent → Agent) (w : World) (row : Agent)
    → ((n : ℕ) (a : Agent) → (f n a).instance_uid ≡ a.instance_uid)
    → find (has_uid uid) w.db.agents ≡ some row
    → (f w.now row).status ≡ status
    → IsReliable w
    → Says uid status (logged (update_agent uid f) w)
unfolding update_agent
update_agent-Says uid status f w row uids found says r =
    subst (λ (p : Result Error (Unit {0}) × World). Says uid status p.1)
      (sym (
        write-IsReliable
          (λ now db. record db { agents = update_where (has_uid uid) (f now) db.agents }) w r))
      (
        record {
          row = f w.now row;
          found = updated uid (f w.now) w.db.agents row (uids w.now) found;
          said = says;
        },
        r,
      )

update_agent-Keeps :
    (uid status : Text) (f : ℕ → Agent → Agent)
    → ((n : ℕ) (a : Agent) → (f n a).instance_uid ≡ a.instance_uid)
    → ((n : ℕ) (a : Agent) → (f n a).status ≡ a.status)
    → Keeps uid status (logged (update_agent uid f))
update_agent-Keeps uid status f uids says w (h, r) =
    update_agent-Says uid status f w h.row uids h.found (says w.now h.row ∙ h.said) r

pub add_event-Keeps :
    (uid status other kind detail : Text) → Keeps uid status (logged (add_event other kind detail))
unfolding add_event
add_event-Keeps uid status other kind detail w (h, r) =
    subst (λ (p : Result Error (Unit {0}) × World). Says uid status p.1)
      (sym (
        write-IsReliable
          (λ now db. record db {
            events =
                db.events
                ++ record {
                  id = db.next_event_id;
                  instance_uid = other;
                  kind = kind;
                  detail = detail;
                  ts = now;
                }
                  ∷ [];
            next_event_id = db.next_event_id + 1;
          })
          w r))
      (record { row = h.row; found = h.found; said = h.said }, r)

touched :
    (uid : Text) (now : ℕ) (db : Db)
    → HasStatus uid connected (record db {
      agents =
          upsert
            (has_uid uid)
            (λ a. record a { status = connected; last_seen = now })
            (new_agent uid now)
            db.agents;
    })
unfolding has_uid new_agent
touched uid now db =
    let there =
      find-upsert (has_uid uid) (λ a. record a { status = connected; last_seen = now })
        (new_agent uid now) db.agents (λ a. refl) (text_eq_refl uid) in
    elim (Option-cases (find (has_uid uid) db.agents)) [
      | inl e ↦ record { row = new_agent uid now; found = rw (there, e) refl; said = refl }
      | inr (a, e) ↦ record {
        row = record a { status = connected; last_seen = now };
        found = rw (there, e) refl;
        said = refl;
      }
    ]

touch_agent-Says :
    (uid : Text) (w : World) → IsReliable w → Says uid connected (logged (touch_agent uid) w)
unfolding touch_agent
touch_agent-Says uid w r =
    subst (λ (p : Result Error (Unit {0}) × World). Says uid connected p.1)
      (sym (
        write-IsReliable
          (λ now db. record db {
            agents =
                upsert (has_uid uid) (λ a. record a { status = connected; last_seen = now })
                  (new_agent uid now) db.agents;
          })
          w r))
      (touched uid w.now w.db, r)

persist_description-Keeps :
    (s : Setup) (uid status : Text) (caps : ℕ) (d : Option Description)
    → Keeps uid status (persist_description s uid caps d)
unfolding persist_description save_agent_description
persist_description-Keeps s uid status caps none w h = h
persist_description-Keeps s uid status caps (some d) w h =
    update_agent-Keeps uid status _ (λ n a. refl) (λ n a. refl) w h

persist_health-Keeps :
    (uid status : Text) (d : Option ComponentHealth) → Keeps uid status (persist_health uid d)
unfolding persist_health save_agent_health
persist_health-Keeps uid status none w h = h
persist_health-Keeps uid status (some d) w h =
    update_agent-Keeps uid status _ (λ n a. refl) (λ n a. refl) w h

persist_effective_config-Keeps :
    (s : Setup) (uid status : Text) (d : Option EffectiveConfig)
    → Keeps uid status (persist_effective_config s uid d)
unfolding persist_effective_config save_agent_effective_config
persist_effective_config-Keeps s uid status none w h = h
persist_effective_config-Keeps s uid status (some d) w h =
    update_agent-Keeps uid status _ (λ n a. refl) (λ n a. refl) w h

record_remote_config_event-Keeps :
    (uid status : Text) (rc : RemoteConfigStatus)
    → Keeps uid status (record_remote_config_event uid rc)
unfolding record_remote_config_event
record_remote_config_event-Keeps uid status rc w h = elim (Bool-cases (rc.status == applied)) [
  | inl e ↦ rw e (add_event-Keeps uid status uid _ _ w h)
  | inr e ↦ elim (Bool-cases (rc.status == failed)) [
    | inl f ↦ rw (e, f) (add_event-Keeps uid status uid _ _ w h)
    | inr f ↦ rw (e, f) h
  ]
]

persist_remote_config_status-Keeps :
    (uid status : Text) (d : Option RemoteConfigStatus)
    → Keeps uid status (persist_remote_config_status uid d)
unfolding persist_remote_config_status save_agent_remote_config_status
persist_remote_config_status-Keeps uid status none w h = h
persist_remote_config_status-Keeps uid status (some rc) w h =
    record_remote_config_event-Keeps uid status rc _
      (update_agent-Keeps uid status _ (λ n a. refl) (λ n a. refl) w h)

persist_package_statuses-Keeps :
    (s : Setup) (uid status : Text) (d : Option PackageStatuses)
    → Keeps uid status (persist_package_statuses s uid d)
unfolding persist_package_statuses save_agent_package_statuses
persist_package_statuses-Keeps s uid status none w h = h
persist_package_statuses-Keeps s uid status (some d) w h =
    update_agent-Keeps uid status _ (λ n a. refl) (λ n a. refl) w h

persist_reported_state-Keeps :
    (s : Setup) (uid status : Text) (msg : AgentToServer)
    → Keeps uid status (persist_reported_state s uid msg)
unfolding persist_reported_state
persist_reported_state-Keeps s uid status msg w h =
    persist_package_statuses-Keeps s uid status msg.package_statuses _ (
      persist_remote_config_status-Keeps uid status msg.remote_config_status _ (
        persist_effective_config-Keeps s uid status msg.effective_config _ (
          persist_health-Keeps uid status msg.health _
            (persist_description-Keeps s uid status msg.capabilities msg.agent_description w h))))

-- A message of a UID, while the database answers, leaves the UID's row there and connected, whatever
-- the message reports.
pub persist-Says :
    (s : Setup) (uid : Text) (is_new : Bool) (msg : AgentToServer) (w : World)
    → IsReliable w
    → Says uid connected (persist s uid is_new msg w)
unfolding persist
persist-Says s uid true msg w r =
    persist_reported_state-Keeps s uid connected msg _
      (add_event-Keeps uid connected uid _ _ _ (touch_agent-Says uid w r))
persist-Says s uid false msg w r =
    persist_reported_state-Keeps s uid connected msg _ (touch_agent-Says uid w r)
