-- ===== src/Tests/Demonstrating.antt =====
-- The theorems on the configuration, on the work on a host and on the demo agent.
use opsramp_agent_orchestrat.Store.Agents.{has_uid, AgentDescription}
use opsramp_agent_orchestrat.Opamp.Hex.{hex_encode}
use opsramp_agent_orchestrat.Opamp.Proto.{Printing}
use opsramp_agent_orchestrat.Prelude.{
  Text, ℕ, ◌≡◌, ◌↔◌, refl, true, false, ◌&&◌, none, some, List, [], ◌∷◌, ◌++◌, codes, ok, err,
  is_empty, text_eq, text_lt, arith,
}
use opsramp_agent_orchestrat.Prelude.Dicts.{get, put, has_key}
use opsramp_agent_orchestrat.DemoAgent.Identity.{parse_labels, load_or_create_instance_uid}
use opsramp_agent_orchestrat.DemoAgent.Description.{Host}
use opsramp_agent_orchestrat.DemoAgent.Description.Stored.{
  server_side, build_description-store_description,
}
use opsramp_agent_orchestrat.Config.{Environment, Config, env, load}
use opsramp_agent_orchestrat.Config.Loaded.{IsBase, load-ok}
use opsramp_agent_orchestrat.Deploy.Dial.{Credentials}
use opsramp_agent_orchestrat.Deploy.Hosts.{uninstall_on_host}
use opsramp_agent_orchestrat.Deploy.Hosts as Hosts
use opsramp_agent_orchestrat.Deploy.Start.{uninstall}
use opsramp_agent_orchestrat.Deploy.Work.{Deregister, on_host}
use opsramp_agent_orchestrat.Deploy.Work.Deregistered.{note_of, on_host-uninstall}
use opsramp_agent_orchestrat.Opamp.Offers.{RemoteConfig, build_offer_for_push}
use opsramp_agent_orchestrat.Opamp.Messages.{applied, AgentToServer, resolved, on_message}
use opsramp_agent_orchestrat.Opamp.Messages.Steady.{choice_of, IsSteady}
use opsramp_agent_orchestrat.Opamp.Registry.{empty}
use opsramp_agent_orchestrat.Opamp.Resolve.{resolve_group, among, assigned, first_selecting}
use opsramp_agent_orchestrat.Store.World.{World, find, require}
use opsramp_agent_orchestrat.Store.Groups.{list_groups}
use opsramp_agent_orchestrat.DemoAgent.{
  DemoAgent, status_of, on_offer, apply_remote_config, restarted,
}
use opsramp_agent_orchestrat.DemoAgent.Restart.{apply_remote_config-stale}
use opsramp_agent_orchestrat.DemoAgent.Heard.{last_status, on_offer-settles}
use opsramp_agent_orchestrat.DemoAgent.Identity.Stable.{load_or_create_instance_uid-stable}
use opsramp_agent_orchestrat.Tests.Samples.{agent, world, setup}

-- Every variable is set to the same URL.
abbrev environment : Environment
environment = record {
  lookup_env = λ key. some (codes "http://h/");
  atoi = λ s. none;
  parse_duration = λ s. none;
}

load-ok_example :
    ((is_empty (env environment (codes "DATABASE_URL") []) ≡ false)
      ↔ ((c : Config) × (load environment ≡ ok c)))
    × ((c : Config)
        → load environment ≡ ok c
        → IsBase c.public_base_url × IsBase c.opsramp.base_url)
load-ok_example = load-ok environment

abbrev host : Hosts.Remote
host = record {
  dial_error = none;
  upload_error = none;
  run_command = λ cmd. record { output = codes "removed"; exit_code = some 0; error = none };
  duration_ms = 5;
}

abbrev root : Credentials
root = record {
  user = codes "root";
  password = codes "p";
  private_key = [];
  passphrase = [];
  port = 22;
  use_sudo = false;
  bastion_host = [];
  bastion_user = [];
  bastion_password = [];
  bastion_private_key = [];
  bastion_passphrase = [];
  bastion_port = 0;
}

abbrev removed : Deregister
removed h w = ((true, none), w)

on_host-uninstall_example :
    ((on_host removed host root (codes "h") (uninstall [] true) world).0.ok
      ≡ (uninstall_on_host host root []).ok)
    × ((on_host removed host root (codes "h") (uninstall [] true) world).0.exit_code
        ≡ (uninstall_on_host host root []).exit_code)
    × ((on_host removed host root (codes "h") (uninstall [] true) world).0.err
        ≡ (uninstall_on_host host root []).err)
    × ((uninstall_on_host host root []).ok ≡ true
        → true ≡ true
        → ((on_host removed host root (codes "h") (uninstall [] true) world).0.output
            ≡ (uninstall_on_host host root []).output ++ note_of (removed (codes "h") world).0)
          × ((on_host removed host root (codes "h") (uninstall [] true) world).1
              ≡ (removed (codes "h") world).1))
    × (((uninstall_on_host host root []).ok && true) ≡ false
        → on_host removed host root (codes "h") (uninstall [] true) world
          ≡ (uninstall_on_host host root [], world))
on_host-uninstall_example = on_host-uninstall removed host root (codes "h") [] true world

-- The disk has a file of an earlier config.
abbrev demo : DemoAgent
demo = record {
  effective = (codes "old.yaml", record { body = codes "y"; content_type = [] }) ∷ [];
  disk = record {
    files = (codes "old.yaml", codes "y") ∷ [];
    write_error = λ name. none;
    readable = λ name. true;
  };
  reported = [];
}

abbrev newer : RemoteConfig
newer = record {
  config = (codes "a.yaml", record { body = codes "x: 1"; content_type = codes "text/yaml" }) ∷ [];
  config_hash = 171 ∷ 1 ∷ [];
}

apply_remote_config-stale_example :
    ((apply_remote_config demo newer).reported ≡ status_of newer applied [] ∷ demo.reported)
    × (has_key (apply_remote_config demo newer).effective (codes "old.yaml") ≡ false)
    × (has_key (restarted (apply_remote_config demo newer)).effective (codes "old.yaml") ≡ true)
unfolding has_key text_eq
apply_remote_config-stale_example =
    apply_remote_config-stale demo newer (codes "old.yaml") (λ name. refl) refl refl refl

-- The agent's next message, with its status.
abbrev heard : AgentToServer
heard = record {
  instance_uid = 10 ∷ [];
  capabilities = 10;
  agent_description = none;
  health = none;
  effective_config = none;
  remote_config_status = last_status (on_offer demo (some newer));
  package_statuses = none;
}

-- An event has been stored since the push.
abbrev later : World
later = record world { now = 12; db = record world.db { next_event_id = 2 } }

later-IsSteady : IsSteady (codes "0a") (choice_of agent) world.db later
unfolding find has_uid text_eq
later-IsSteady = record {
  agent = agent;
  found = refl;
  chosen = refl;
  groups = refl;
  versions = refl;
  answers = refl;
}

on_offer-settles_example : (on_message setup 3 heard (empty, later)).0.remote_config ≡ none
unfolding hex_encode build_offer_for_push resolved resolve_group list_groups among assigned
    first_selecting find text_eq require text_lt get put
on_offer-settles_example =
    on_offer-settles setup 3 heard empty demo agent (10 ∷ []) newer world later refl refl
      later-IsSteady refl refl refl

abbrev random : List ℕ
random = 1 ∷ 2 ∷ 3 ∷ 4 ∷ 5 ∷ 6 ∷ 7 ∷ 8 ∷ 9 ∷ 10 ∷ 11 ∷ 12 ∷ 13 ∷ 14 ∷ 15 ∷ 255 ∷ []

load_or_create_instance_uid-stable_example :
    load_or_create_instance_uid
      (err (codes "no"))
      none
      (load_or_create_instance_uid (ok random) none none).1
    ≡ (ok random, (load_or_create_instance_uid (ok random) none none).1)
unfolding load_or_create_instance_uid
load_or_create_instance_uid-stable_example =
    load_or_create_instance_uid-stable random (err (codes "no")) none none none random (omega arith)
      refl refl

abbrev printing : Printing
printing = record { format_float = λ n. []; sprint = λ n. [] }

abbrev demo_host : Host
demo_host = record { hostname = codes "h1"; os = codes "linux"; arch = codes "amd64" }

abbrev labels : Text
labels = codes "env=prod, zone = a"

abbrev seen : AgentDescription
seen = server_side printing demo_host (codes "demo") (codes "1") (10 ∷ []) labels 3

build_description-store_description_example :
    (seen.service_name ≡ codes "demo")
    × (get seen.identifying_attrs (codes "service.instance.id") ≡ some (hex_encode (10 ∷ [])))
    × ((k v : Text)
        → get (parse_labels labels) k ≡ some v
        → get seen.non_identifying_attrs k ≡ some v)
    × (has_key (parse_labels labels) (codes "host.name") ≡ false → seen.hostname ≡ codes "h1")
    × (has_key (parse_labels labels) (codes "os.type") ≡ false → seen.os_type ≡ codes "linux")
build_description-store_description_example =
    build_description-store_description printing demo_host (codes "demo") (codes "1") (10 ∷ [])
      labels 3
