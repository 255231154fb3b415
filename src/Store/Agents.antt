-- ===== src/Store/Agents.antt =====
-- internal/store/postgres.go: the agent rows and the events.
use opsramp_agent_orchestrat.Prelude.{
  ℕ, ◌+◌, ◌-◌, ◌^◌, leb, Bool, true, false, ◌||◌, Option, none, some, List, [], ◌∷◌, ◌++◌, ltb,
  ◌==◌, if◌then◌else◌, Text, codes, text_eq, ok, err,
}
use opsramp_agent_orchestrat.Prelude.Dicts.{Dict}
use opsramp_agent_orchestrat.Model.{Agent, Group, Event, Nanos}
use opsramp_agent_orchestrat.Store.World.{
  constraint, Db, Action, statement, write, read, find, exists, update_where, upsert, require,
  sort_desc, limit,
}

abbrev pub connected : Text
connected = codes "connected"

abbrev pub disconnected : Text
disconnected = codes "disconnected"

unfoldable pub has_uid : Text → Agent → Bool
has_uid uid a = text_eq a.instance_uid uid

-- A row of which only the key is given: the columns' defaults.
unfoldable pub new_agent : Text → ℕ → Agent
new_agent uid now = record {
  instance_uid = uid;
  status = connected;
  service_name = [];
  service_version = [];
  hostname = [];
  os_type = [];
  identifying_attrs = [];
  non_identifying_attrs = [];
  capabilities = 0;
  effective_config = [];
  effective_config_hash = [];
  remote_config_status = 0;
  remote_config_error = [];
  last_remote_config_hash = [];
  health_healthy = false;
  health_status = [];
  health_last_error = [];
  health_start_time = none;
  health_status_time = none;
  package_statuses = codes "{}";
  assigned_group = none;
  resolved_group = [];
  first_seen = now;
  last_seen = now;
}

unfoldable pub touch_agent : Text → Action (Unit {0})
unfolding write has_uid new_agent
touch_agent uid = write λ now db. record db {
  agents =
      upsert (has_uid uid) (λ a. record a { status = connected; last_seen = now })
        (new_agent uid now) db.agents;
}

-- `UPDATE agents SET … WHERE instance_uid = $1`
unfoldable pub update_agent : Text → (ℕ → Agent → Agent) → Action (Unit {0})
unfolding write has_uid
update_agent uid f =
    write λ now db. record db { agents = update_where (has_uid uid) (f now) db.agents }

unfoldable pub set_agent_status : Text → Text → Action (Unit {0})
unfolding update_agent
set_agent_status uid status =
    update_agent uid (λ now a. record a { status = status; last_seen = now })

pub record AgentDescription : Type 0 where
  pub service_name : Text
  pub service_version : Text
  pub hostname : Text
  pub os_type : Text
  pub capabilities : ℕ
  pub identifying_attrs : Dict Text
  pub non_identifying_attrs : Dict Text

unfoldable pub save_agent_description : Text → AgentDescription → Action (Unit {0})
unfolding update_agent
save_agent_description uid d = update_agent uid λ now a. record a {
  service_name = d.service_name;
  service_version = d.service_version;
  hostname = d.hostname;
  os_type = d.os_type;
  capabilities = d.capabilities;
  identifying_attrs = d.identifying_attrs;
  non_identifying_attrs = d.non_identifying_attrs;
  last_seen = now;
}

pub record AgentHealth : Type 0 where
  pub healthy : Bool
  pub status : Text
  pub last_error : Text
  pub start_nano : ℕ
  pub status_nano : ℕ

-- 0 is no time. `int64(nano)` makes the upper half of the 64 bits negative.
unfoldable pub nano_to_time : ℕ → Option Nanos
nano_to_time nano =
    if nano == 0
    then none
    else if leb (2 ^ 63) nano
    then some (true, 2 ^ 64 - nano)
    else some (false, nano)

unfoldable pub save_agent_health : Text → AgentHealth → Action (Unit {0})
unfolding update_agent nano_to_time
save_agent_health uid h = update_agent uid λ now a. record a {
  health_healthy = h.healthy;
  health_status = h.status;
  health_last_error = h.last_error;
  health_start_time = nano_to_time h.start_nano;
  health_status_time = nano_to_time h.status_nano;
  last_seen = now;
}

unfoldable pub save_agent_effective_config : Text → Text → Text → Action (Unit {0})
unfolding update_agent
save_agent_effective_config uid cfg hash =
    update_agent uid
      λ now a. record a { effective_config = cfg; effective_config_hash = hash; last_seen = now }

unfoldable pub save_agent_remote_config_status : Text → ℕ → Text → Text → Action (Unit {0})
unfolding update_agent
save_agent_remote_config_status uid status err_msg last_hash = update_agent uid λ now a. record a {
  remote_config_status = status;
  remote_config_error = err_msg;
  last_remote_config_hash = last_hash;
  last_seen = now;
}

unfoldable pub save_agent_package_statuses : Text → Text → Action (Unit {0})
unfolding update_agent
save_agent_package_statuses uid statuses =
    update_agent uid (λ now a. record a { package_statuses = statuses; last_seen = now })

unfoldable pub has_group_name : Text → Group → Bool
has_group_name name g = text_eq g.name name

-- A reference to a group that is not there violates the foreign key.
unfoldable pub group_known : Option Text → Db → Bool
unfolding has_group_name
group_known none db = true
group_known (some g) db = exists (has_group_name g) db.groups

unfoldable pub set_agent_group : Text → Option Text → Action (Unit {0})
unfolding statement has_uid group_known
set_agent_group uid group = statement λ _ db.
    if exists (has_uid uid) db.agents
    then (if group_known group db
        then ok (
          tt,
          record db {
            agents =
                update_where (has_uid uid) (λ a. record a { assigned_group = group }) db.agents;
          },
        )
        else err constraint)
    else ok (tt, db)

unfoldable pub get_agent : Text → Action Agent
unfolding read has_uid
get_agent uid = read (λ db. require (find (has_uid uid) db.agents))

-- `ORDER BY last_seen DESC`
unfoldable pub list_agents : Action (List Agent)
unfolding read
list_agents = read (λ db. ok (sort_desc (λ a. a.last_seen) db.agents))

unfoldable pub add_event : Text → Text → Text → Action (Unit {0})
unfolding write
add_event uid kind detail = write λ now db. record db {
  events =
      db.events
      ++ record {
        id = db.next_event_id;
        instance_uid = uid;
        kind = kind;
        detail = detail;
        ts = now;
      }
        ∷ [];
  next_event_id = db.next_event_id + 1;
}

unfoldable pub event_limit : ℕ → ℕ
event_limit n = if n == 0 || ltb 1000 n then 200 else n

unfoldable pub list_events : ℕ → Action (List Event)
unfolding read event_limit
list_events n = read (λ db. ok (limit (event_limit n) (sort_desc (λ (e : Event). e.ts) db.events)))
