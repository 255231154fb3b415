-- ===== src/Api/Http.antt =====
-- internal/api/api.go: requests, responses, the guard of the admin token and the answers to errors.
-- The JSON decoding of a body, `readJSON` with its cap, is a parameter; so are base64 and SHA-256.
use opsramp_agent_orchestrat.Prelude.{
  ℕ, Bool, true, false, not, ◌||◌, Option, List, if◌then◌else◌, Text, codes, text_eq, is_empty,
  trim_space, trim_prefix, Result, ok, err,
}
use opsramp_agent_orchestrat.Prelude.Dicts.{Dict}
use opsramp_agent_orchestrat.Model.{
  Agent, Group, ConfigFile, ConfigVersion, Package, Event, OpsRampAgent, OpsRampSettings, DeployJob,
}
use opsramp_agent_orchestrat.Store.World.{Error, not_found, World, Action}
use opsramp_agent_orchestrat.Opamp.Registry.{Conn, Registry}
use opsramp_agent_orchestrat.Opamp.Offers.{ServerToAgent}
use opsramp_agent_orchestrat.Opamp.Messages.{Setup}
use opsramp_agent_orchestrat.Opamp.Push.{PushError}
use opsramp_agent_orchestrat.Deploy.Address.{Syntax}
use opsramp_agent_orchestrat.Deploy.Start.{StartRequest, StartError}
use opsramp_agent_orchestrat.Opsramp.Connector.{Connector, ConfigureError}
use opsramp_agent_orchestrat.Opsramp.Endpoints.{ApiError}
use opsramp_agent_orchestrat.Opsramp.Calls.{Remote, CallError}
use opsramp_agent_orchestrat.Reconcile.{Report}

-- The five methods that matter; any other is `other`.
pub data Method : Type 0 where
  get_method head_method post_method put_method delete_method other_method : Method

-- The segments of the path are decoded, and none is empty. An empty header is one that is not there.
pub record Request : Type 0 where
  pub method : Method
  pub path : List Text
  pub authorization : Text
  pub x_actor : Text
  pub body : Text

-- The body of a response, by what the JSON holds.
pub data Payload : Type 0 where
  error_message : Text → Payload
  status_word : Text → Payload
  done : Payload
  agents_listed : List Agent → ℕ → Payload
  one_agent : Agent → Payload
  group_assigned : Bool → Payload
  push_result : Bool → Text → Payload
  events_listed : List Event → Payload
  groups_listed : List Group → Payload
  one_group : Group → Payload
  one_config : ConfigVersion → Payload
  versions_listed : List ConfigVersion → Payload
  -- with the number of agents pushed
  config_created : ConfigVersion → ℕ → Payload
  rolled_back : ℕ → ℕ → Payload
  packages_changed : ℕ → Payload
  packages_listed : List Package → Payload
  one_package : Package → Payload
  -- the bytes, and the name of the attachment
  package_bytes : Text → List ℕ → Payload
  job_started : DeployJob → Payload
  jobs_listed : List DeployJob → Payload
  one_job : DeployJob → Payload
  fleet_report : Report → Payload
  connector_config : OpsRampSettings → Bool → Bool → Payload
  connector_changed : Bool → Payload
  connector_status : Bool → Text → Option (Option Text) → Option ℕ → Option ℕ → Payload
  check_failed_payload : Text → Payload
  check_done : Bool → Text → Text → ℕ → Payload
  token_payload : Text → ℕ → Payload
  inventory_listed : List OpsRampAgent → ℕ → Payload
  synced_count : ℕ → Payload
  raw_json : Text → Payload
  -- a download: its bytes, its content type and the name of the attachment
  download : List ℕ → Text → Text → Payload
  page : Payload
  plain_text : Text → Payload

pub record Response : Type 0 where
  pub status : ℕ
  pub payload : Payload

pub record State : Type 0 where
  pub registry : Registry
  pub world : World
  pub connector : Connector

pub record PackageBody : Type 0 where
  pub name : Text
  pub type : ℕ
  pub version : Text
  pub content_base64 : Text
  pub signature : Text

-- `connSettingsBody`, with the switch that only one handler reads.
pub record SettingsBody : Type 0 where
  pub base_url : Text
  pub tenant_id : Text
  pub client_key : Text
  pub client_secret : Text
  pub poll_interval_seconds : ℕ
  pub enabled : Option Bool

-- `readJSON` into the body of each handler, or the text of its error. Where an empty body is let
-- through (`io.EOF`), the decoded value is that of no fields.
pub record Bodies : Type 0 where
  pub group_of : Text → Result Text (Option Text)
  pub group_fields : Text → Result Text (Text × Dict Text)
  pub config_fields : Text → Result Text (Dict ConfigFile × Text)
  pub version_of : Text → Result Text ℕ
  pub package_of : Text → Result Text Text
  pub package_fields : Text → Result Text PackageBody
  -- who created the job is not in the body
  pub start_fields : Text → Result Text StartRequest
  pub settings_fields : Text → Result Text SettingsBody
  pub settings_or_none : Text → Result Text SettingsBody
  pub refresh_of : Text → Result Text Bool
  -- `readAnyBody`: the JSON, or nothing where it is malformed
  pub any_of : Text → Option Text

-- The configuration, and what the code relies on.
pub record Site : Type 0 where
  pub admin_token : Text
  pub setup : Setup
  pub send : Conn → ServerToAgent → Bool
  pub remote : Remote
  pub syntax : Syntax
  pub bodies : Bodies
  pub base64 : Text → Option (List ℕ)
  -- the order in which Go ranges over the counts of the report, and a new job's id
  pub ranged : Dict ℕ → Dict ℕ
  pub new_id : ℕ → Text
  -- `Error()` of each kind of error
  pub error_text : Error → Text
  pub start_error_text : StartError → Text
  pub configure_error_text : ConfigureError → Text
  pub call_error_text : CallError → Text
  pub api_error_text : ApiError → Text
  pub push_error_text : PushError → Text

abbrev pub Handler : Type 0
Handler = State → Response × State

-- `writeJSON` and `writeErr`, as the last thing that a handler does.
abbrev pub write_json : ℕ → Payload → Handler
write_json code p st = (record { status = code; payload = p }, st)

abbrev pub write_err : ℕ → Text → Handler
write_err code msg = write_json code (error_message msg)

-- `mapStoreErr`, on an error
unfoldable pub map_store_err : Site → Error → Handler
map_store_err s not_found = write_err 404 (codes "not found")
map_store_err s e = write_err 500 (s.error_text e)

abbrev pub with_world : State → World → State
with_world st w = record st { world = w }

abbrev pub stored : {A : Type 0} → Site → Result Error A × World → (A → Handler) → Handler
stored s (ok a, w) k st = k a (with_world st w)
stored s (err e, w) k st = map_store_err s e (with_world st w)

-- A call of the store, with an early return on its error.
abbrev pub call : {A : Type 0} → Site → Action A → (A → Handler) → Handler
call s m k st = stored s (m st.world) k st

-- Reading the body, with an early return on its error.
abbrev pub with_body : {A : Type 0} → Result Text A → (A → Handler) → Handler
with_body (ok a) k = k a
with_body (err e) k = write_err 400 e

-- A call whose result is dropped.
abbrev pub effect : (World → World) → Handler → Handler
effect f k st = k (with_world st (f st.world))

unfoldable pub is_safe : Method → Bool
is_safe get_method = true
is_safe head_method = true
is_safe _ = false

-- Whether `authMiddleware` hands the request on.
unfoldable pub admits : Text → Request → Bool
unfolding is_safe trim_space trim_prefix
admits token r =
    is_empty token
    || (is_safe r.method
        || text_eq (trim_space (trim_prefix (codes "Bearer ") r.authorization)) token)

unfoldable pub actor : Request → Text
actor r = if not (is_empty r.x_actor) then r.x_actor else codes "admin-api"
