-- ===== src/DemoAgent/Description.antt =====
-- cmd/demo-agent/util.go: how the agent describes itself. The host's name, its system and its
-- architecture are parameters.
pub mod Stored
use opsramp_agent_orchestrat.Prelude.{
  Option, none, some, List, [], ◌∷◌, ◌++◌, if◌then◌else◌, ℕ, Text, codes, is_empty,
}
use opsramp_agent_orchestrat.Prelude.Dicts.{Dict}
use opsramp_agent_orchestrat.Opamp.Hex.{hex_encode}
use opsramp_agent_orchestrat.Opamp.Proto.{KeyValue, string_value}
use opsramp_agent_orchestrat.Opamp.Messages.{Description}

pub record Host : Type 0 where
  pub hostname : Text
  pub os : Text
  pub arch : Text

unfoldable pub string_kv : Text → Text → KeyValue
string_kv key val = record { key = key; value = some (string_value val) }

unfoldable pub label_attributes : Dict Text → List (Option KeyValue)
unfolding string_kv
label_attributes [] = []
label_attributes ((k, v) ∷ labels) = some (string_kv k v) ∷ label_attributes labels

-- The labels come in any order, behind the attributes of the host.
unfoldable pub build_description : Host → Text → Text → List ℕ → Dict Text → Description
unfolding string_kv label_attributes hex_encode
build_description h service_name service_version uid labels = record {
  identifying_attributes =
      some (string_kv (codes "service.name") service_name)
      ∷ some (string_kv (codes "service.instance.id") (hex_encode uid))
      ∷ [];
  non_identifying_attributes =
      some (string_kv (codes "service.version") service_version)
      ∷ some (string_kv (codes "host.name") h.hostname)
      ∷ some (string_kv (codes "os.type") h.os)
      ∷ some (string_kv (codes "host.arch") h.arch)
      ∷ label_attributes labels;
}

-- `Authorization`, if there is a token
unfoldable pub auth_header : Text → Option Text
auth_header token = if is_empty token then none else some (codes "Bearer " ++ token)
