-- ===== src/Opamp/Messages/Steady.antt =====
-- What chooses an agent's config, behind the writes of a message that does not describe the agent anew.
use opsramp_agent_orchestrat.Prelude.{
  ℕ, ◌≡◌, refl, sym, subst, ◌∙◌, Bool, true, false, Option, none, some, List, ◌==◌, Text,
  text_eq_refl, Result, Bool-cases, inl, inr,
}
use opsramp_agent_orchestrat.Prelude.Dicts.{Dict}
use opsramp_agent_orchestrat.Model.{Agent}
use opsramp_agent_orchestrat.Store.World.{Error, Db, World, write, find, upsert}
use opsramp_agent_orchestrat.Store.Rows.{find-upsert}
use opsramp_agent_orchestrat.Store.Steps.{IsReliable, write-IsReliable}
use opsramp_agent_orchestrat.Store.Agents.{
  connected, has_uid, new_agent, update_agent, touch_agent, add_event, save_agent_health,
  save_agent_effective_config, save_agent_remote_config_status, save_agent_package_statuses,
}
use opsramp_agent_orchestrat.Opamp.Proto.{ComponentHealth, EffectiveConfig, PackageStatuses}
use opsramp_agent_orchestrat.Opamp.Messages.{
  applied, failed, Setup, AgentToServer, RemoteConfigStatus, logged, persist_description,
  persist_health, persist_effective_config, persist_remote_config_status, persist_package_statuses,
  persist, persist_reported_state, record_remote_config_event,
}
use opsramp_agent_orchestrat.Opamp.Messages.Kept.{updated}

-- The fields of an agent on which its config depends.
abbrev pub Choice : Type 0
Choice = Option Text × ℕ × Dict Text × Dict Text

abbrev pub choice_of : Agent → Choice
choice_of a = (a.assigned_group, a.capabilities, a.identifying_attrs, a.non_identifying_attrs)

-- The database answers, the UID has a row of that choice, and the groups and their versions are those.
pub record IsSteady (uid : Text) (c : Choice) (db : Db) (w : World) : Type 0 where
  pub agent : Agent
  pub found : find (has_uid uid) w.db.agents ≡ some agent
  pub chosen : choice_of agent ≡ c
  pub groups : w.db.groups ≡ db.groups
  pub versions : w.db.versions ≡ db.versions
  pub answers : IsReliable w

abbrev Leaves : (World → World) → Type 0
Leaves step =
    (uid : Text) (c : Choice) (db : Db) (w : World)
    → IsSteady uid c db w
    → IsSteady uid c db (step w)

write-Leaves :
    (uid : Text) (c : Choice) (db : Db) (w : World) (f : ℕ → Db → Db)
    → IsReliable w
    → IsSteady uid c db (record w { db = f w.now w.db })
    → IsSteady uid c db (write f w).1
write-Leaves uid c db w f r h =
    subst (λ (p : Result Error (Unit {0}) × World). IsSteady uid c db p.1)
      (sym (write-IsReliable f w r)) h

update_agent-Leaves :
    (uid : Text) (c : Choice) (db : Db) (w : World) (f : ℕ → Agent → Agent)
    → ((n : ℕ) (a : Agent) → (f n a).instance_uid ≡ a.instance_uid)
    → ((n : ℕ) (a : Agent) → choice_of (f n a) ≡ choice_of a)
    → IsSteady uid c db w
    → IsSteady uid c db (logged (update_agent uid f) w)
unfolding update_agent
update_agent-Leaves uid c db w f uids same h = write-Leaves uid c db w _ h.answers (record {
  agent = f w.now h.agent;
  found = updated uid (f w.now) w.db.agents h.agent (uids w.now) h.found;
  chosen = same w.now h.agent ∙ h.chosen;
  groups = h.groups;
  versions = h.versions;
  answers = h.answers;
})

add_event-Leaves : (other kind detail : Text) → Leaves (logged (add_event other kind detail))
unfolding add_event
add_event-Leaves other kind detail uid c db w h = write-Leaves uid c db w _ h.answers (record {
  agent = h.agent;
  found = h.found;
  chosen = h.chosen;
  groups = h.groups;
  versions = h.versions;
  answers = h.answers;
})

touched_row :
    (uid : Text) (now : ℕ) (a : Agent) (agents : List Agent)
    → find (has_uid uid) agents ≡ some a
    → find (has_uid uid) (
        upsert
          (has_uid uid)
          (λ b. record b { status = connected; last_seen = now })
          (new_agent uid now)
          agents)
      ≡ some (record a { status = connected; last_seen = now })
unfolding has_uid new_agent
touched_row uid now a agents found =
    find-upsert (has_uid uid) (λ b. record b { status = connected; last_seen = now })
      (new_agent uid now) agents (λ b. refl) (text_eq_refl uid)
    ∙ rw found refl

touch_agent-Leaves :
    (uid : Text) (c : Choice) (db : Db) (w : World)
    → IsSteady uid c db w
    → IsSteady uid c db (logged (touch_agent uid) w)
unfolding touch_agent
touch_agent-Leaves uid c db w h = write-Leaves uid c db w _ h.answers (record {
  agent = record h.agent { status = connected; last_seen = w.now };
  found = touched_row uid w.now h.agent w.db.agents h.found;
  chosen = h.chosen;
  groups = h.groups;
  versions = h.versions;
  answers = h.answers;
})

record_remote_config_event-Leaves :
    (other : Text) (rc : RemoteConfigStatus) → Leaves (record_remote_config_event other rc)
unfolding record_remote_config_event
record_remote_config_event-Leaves other rc uid c db w h = elim (Bool-cases (rc.status == applied)) [
  | inl e ↦ rw e (add_event-Leaves other _ _ uid c db w h)
  | inr e ↦ elim (Bool-cases (rc.status == failed)) [
    | inl f ↦ rw (e, f) (add_event-Leaves other _ _ uid c db w h)
    | inr f ↦ rw (e, f) h
  ]
]

module _ (uid : Text) (c : Choice) (db : Db) where
  persist_health-Leaves :
      (d : Option ComponentHealth) (w : World)
      → IsSteady uid c db w
      → IsSteady uid c db (persist_health uid d w)
  unfolding persist_health save_agent_health
  persist_health-Leaves none w h = h
  persist_health-Leaves (some d) w h =
      update_agent-Leaves uid c db w _ (λ n a. refl) (λ n a. refl) h

  persist_effective_config-Leaves :
      (s : Setup) (d : Option EffectiveConfig) (w : World)
      → IsSteady uid c db w
      → IsSteady uid c db (persist_effective_config s uid d w)
  unfolding persist_effective_config save_agent_effective_config
  persist_effective_config-Leaves s none w h = h
  persist_effective_config-Leaves s (some d) w h =
      update_agent-Leaves uid c db w _ (λ n a. refl) (λ n a. refl) h

  persist_remote_config_status-Leaves :
      (d : Option RemoteConfigStatus) (w : World)
      → IsSteady uid c db w
      → IsSteady uid c db (persist_remote_config_status uid d w)
  unfolding persist_remote_config_status save_agent_remote_config_status
  persist_remote_config_status-Leaves none w h = h
  persist_remote_config_status-Leaves (some rc) w h =
      record_remote_config_event-Leaves uid rc uid c db _
        (update_agent-Leaves uid c db w _ (λ n a. refl) (λ n a. refl) h)

  persist_package_statuses-Leaves :
      (s : Setup) (d : Option PackageStatuses) (w : World)
      → IsSteady uid c db w
      → IsSteady uid c db (persist_package_statuses s uid d w)
  unfolding persist_package_statuses save_agent_package_statuses
  persist_package_statuses-Leaves s none w h = h
  persist_package_statuses-Leaves s (some d) w h =
      update_agent-Leaves uid c db w _ (λ n a. refl) (λ n a. refl) h

  persist_reported_state-IsSteady :
      (s : Setup) (msg : AgentToServer) (w : World)
      → msg.agent_description ≡ none
      → IsSteady uid c db w
      → IsSteady uid c db (persist_reported_state s uid msg w)
  unfolding persist_reported_state persist_description
  persist_reported_state-IsSteady s msg w same h =
      persist_package_statuses-Leaves s msg.package_statuses _ (
        persist_remote_config_status-Leaves msg.remote_config_status _ (
          persist_effective_config-Leaves s msg.effective_config _
            (persist_health-Leaves msg.health _ (rw same h))))

  -- What a message writes that does not describe the agent leaves the choice of its config.
  pub persist-IsSteady :
      (s : Setup) (is_new : Bool) (msg : AgentToServer) (w : World)
      → msg.agent_description ≡ none
      → IsSteady uid c db w
      → IsSteady uid c db (persist s uid is_new msg w)
  unfolding persist
  persist-IsSteady s true msg w same h =
      persist_reported_state-IsSteady s msg _ same
        (add_event-Leaves uid _ _ uid c db _ (touch_agent-Leaves uid c db w h))
  persist-IsSteady s false msg w same h =
      persist_reported_state-IsSteady s msg _ same (touch_agent-Leaves uid c db w h)
