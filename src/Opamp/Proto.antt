-- ===== src/Opamp/Proto.antt =====
-- internal/opampserver/protoutil.go and mapping.go: between the protocol's messages and the model.
-- Printing a floating point number or a nested value, and protojson, are parameters.
pub mod Canonical
use opsramp_agent_orchestrat.Prelude.{
  ℕ, zero, suc, ◌+◌, ◌-◌, ◌*◌, ◌/◌, ◌%◌, Bool, true, false, not, ◌&&◌, ◌||◌, Option, none, some,
  List, [], ◌∷◌, ◌++◌, map, length, ltb, ◌==◌, if◌then◌else◌, Text, codes, decimal, is_empty,
}
use opsramp_agent_orchestrat.Prelude.Dicts
use opsramp_agent_orchestrat.Prelude.Dicts.{Dict}
use opsramp_agent_orchestrat.Prelude.Sorting.{sort_by}
use opsramp_agent_orchestrat.Model.{ConfigFile}
use opsramp_agent_orchestrat.Store.Agents.{AgentDescription, AgentHealth}
use opsramp_agent_orchestrat.Opamp.Hex.{hex_encode}
use opsramp_agent_orchestrat.Opamp.Resolve.{value}

-- An integer is its sign and its magnitude, a floating point number its bits, and a nested value
-- (a list or a map of values) stands for itself.
pub data AnyValue : Type 0 where
  string_value : Text → AnyValue
  bool_value : Bool → AnyValue
  int_value : Bool → ℕ → AnyValue
  double_value : ℕ → AnyValue
  bytes_value : List ℕ → AnyValue
  nested_value : ℕ → AnyValue
  no_value : AnyValue

pub record KeyValue : Type 0 where
  pub key : Text
  pub value : Option AnyValue

-- `%v` of what has no case of its own, and `FormatFloat(x, 'g', -1, 64)`.
pub record Printing : Type 0 where
  pub format_float : ℕ → Text
  pub sprint : ℕ → Text

-- `strconv.FormatInt(x, 10)`
unfoldable pub format_int : Bool → ℕ → Text
unfolding decimal
format_int negative n = if negative then 45 ∷ decimal n else decimal n

unfoldable pub any_value_to_string : Printing → Option AnyValue → Text
unfolding format_int hex_encode
any_value_to_string p none = []
any_value_to_string p (some (string_value s)) = s
any_value_to_string p (some (bool_value b)) = if b then codes "true" else codes "false"
any_value_to_string p (some (int_value negative n)) = format_int negative n
any_value_to_string p (some (double_value bits)) = p.format_float bits
any_value_to_string p (some (bytes_value bs)) = hex_encode bs
any_value_to_string p (some (nested_value v)) = p.sprint v
any_value_to_string p (some no_value) = codes "<nil>"

unfoldable pub attrs_from : Printing → Dict Text → List (Option KeyValue) → Dict Text
attrs_from p out [] = out
attrs_from p out (none ∷ kvs) = attrs_from p out kvs
attrs_from p out (some kv ∷ kvs) =
    attrs_from p (Dicts.put out kv.key (any_value_to_string p kv.value)) kvs

unfoldable pub attrs_to_map : Printing → List (Option KeyValue) → Dict Text
unfolding attrs_from
attrs_to_map p kvs = attrs_from p [] kvs

unfoldable pub pick_from : Option Text → Dict Text → Text → Text
unfolding value
pick_from none nonident key = value nonident key
pick_from (some v) nonident key = v

-- The identifying attribute, else the other one.
unfoldable pub pick : Dict Text → Dict Text → Text → Text
unfolding pick_from
pick ident nonident key = pick_from (Dicts.get ident key) nonident key

unfoldable pub store_description : Dict Text → Dict Text → ℕ → AgentDescription
unfolding pick
store_description ident nonident caps = record {
  service_name = pick ident nonident (codes "service.name");
  service_version = pick ident nonident (codes "service.version");
  hostname = pick ident nonident (codes "host.name");
  os_type = pick ident nonident (codes "os.type");
  capabilities = caps;
  identifying_attrs = ident;
  non_identifying_attrs = nonident;
}

pub record ComponentHealth : Type 0 where
  pub healthy : Bool
  pub status : Text
  pub last_error : Text
  pub start_time_unix_nano : ℕ
  pub status_time_unix_nano : ℕ

unfoldable pub health_from_proto : ComponentHealth → AgentHealth
health_from_proto h = record {
  healthy = h.healthy;
  status = h.status;
  last_error = h.last_error;
  start_nano = h.start_time_unix_nano;
  status_nano = h.status_time_unix_nano;
}

-- `names` of a map, sorted.
unfoldable pub sorted_names {ℓ} : {V : Type ℓ} → Dict V → List Text
sorted_names m = sort_by (λ s. s) (Dicts.keys m)

unfoldable file_or_zero : Option ConfigFile → ConfigFile
file_or_zero none = record { body = []; content_type = [] }
file_or_zero (some f) = f

-- What one file adds to the hashed bytes.
unfoldable file_bytes : Text → ConfigFile → List ℕ
file_bytes name f = name ++ 0 ∷ f.content_type ++ 0 ∷ f.body ++ 0 ∷ []

unfoldable written : Dict ConfigFile → List Text → List ℕ
unfolding file_bytes file_or_zero
written files [] = []
written files (name ∷ names) =
    file_bytes name (file_or_zero (Dicts.get files name)) ++ written files names

-- The bytes that `ConfigMapHash` hashes.
unfoldable pub canonical : Dict ConfigFile → List ℕ
unfolding sorted_names written
canonical files = written files (sorted_names files)

unfoldable pub config_map_hash : (List ℕ → List ℕ) → Dict ConfigFile → List ℕ
unfolding canonical
config_map_hash sha256 files = sha256 (canonical files)

unfoldable pub config_map_hash_hex : (List ℕ → List ℕ) → Dict ConfigFile → Text
unfolding config_map_hash hex_encode
config_map_hash_hex sha256 files = hex_encode (config_map_hash sha256 files)

-- A reported file may be missing from its entry; a reported map may be missing as well.
pub record EffectiveConfig : Type 0 where
  pub config_map : Option (Dict (Option ConfigFile))

heading : Text → Text
heading name = codes "# --- " ++ name ++ codes " ---\n"

body_lines : Option (Option ConfigFile) → Text
body_lines (some (some f)) = f.body ++ codes "\n"
body_lines other = []

render : Dict (Option ConfigFile) → Bool → List Text → Text
unfolding heading body_lines
render m several [] = []
render m several (name ∷ names) =
    (if several || not (is_empty name) then heading name else [])
    ++ body_lines (Dicts.get m name)
    ++ render m several names

unfoldable pub effective_config_to_string : EffectiveConfig → Text
unfolding sorted_names render
effective_config_to_string ec = elim ec.config_map [
  | none ↦ []
  | some m ↦ render m (ltb 1 (length (sorted_names m))) (sorted_names m)
]

reported_file : Text × Option ConfigFile → Text × ConfigFile
unfolding file_or_zero
reported_file (name, f) = (name, file_or_zero f)

unfoldable pub effective_config_hash : (List ℕ → List ℕ) → EffectiveConfig → Text
unfolding config_map_hash_hex reported_file
effective_config_hash sha256 ec = elim ec.config_map [
  | none ↦ []
  | some m ↦ config_map_hash_hex sha256 (map reported_file m)
]

with_type : Text × ConfigFile → Text × ConfigFile
with_type (name, f) = (
  name,
  record f { content_type = if is_empty f.content_type then codes "text/yaml" else f.content_type },
)

unfoldable pub model_files_to_config_map : Dict ConfigFile → Dict ConfigFile
unfolding with_type
model_files_to_config_map files = map with_type files

pub record PackageStatuses : Type 0 where
  pub server_provided_all_packages_hash : List ℕ
  -- what protojson reads
  pub content : ℕ

-- `protojson.Marshal` and `json.Unmarshal` into a map, which is kept as its text.
pub record Json : Type 0 where
  pub marshal_statuses : PackageStatuses → Option Text
  pub unmarshal_map : Text → Option Text

unfoldable pub package_statuses_to_map : Json → PackageStatuses → Text
package_statuses_to_map j ps = elim (j.marshal_statuses ps) [
  | none ↦ codes "{}"
  | some b ↦ elim (j.unmarshal_map b) [ none ↦ codes "{}" | some m ↦ m ]
]
