-- ===== src/Tests/Sites.antt =====
-- A site with an admin token, and requests to it.
use opsramp_agent_orchestrat.Prelude.{true, none, some, [], ◌∷◌, Text, codes, ok, err}
use opsramp_agent_orchestrat.Opamp.Registry.{empty}
use opsramp_agent_orchestrat.Api.Http.{
  post_method, put_method, Request, State, PackageBody, Bodies, Site,
}
use opsramp_agent_orchestrat.Opsramp.Calls.{Remote}
use opsramp_agent_orchestrat.Tests.Samples.{files, world, setup, syntax, connector}

-- OpsRamp answers nothing.
abbrev pub remote : Remote
remote = record {
  ensure_token = λ c. none;
  token = λ c refresh. err (codes "down");
  token_expiry = λ c. none;
  agent_resources = λ c. err (codes "down");
  probe_tenant = λ c. none;
  ask = λ c req. err (codes "down");
  valid = λ s. true;
  raw_map = λ s. s;
}

abbrev pub package_body : PackageBody
package_body = record {
  name = codes "p1";
  type = 0;
  version = codes "1.0";
  content_base64 = codes "eA==";
  signature = [];
}

-- The bodies of the requests below; a request to assign names the group that is its text.
abbrev pub bodies : Bodies
bodies = record {
  group_of = λ s. ok (some s);
  group_fields = λ s. err (codes "bad");
  config_fields = λ s. ok (files, codes "note");
  version_of = λ s. err (codes "bad");
  package_of = λ s. err (codes "bad");
  package_fields = λ s. ok package_body;
  start_fields = λ s. err (codes "bad");
  settings_fields = λ s. err (codes "bad");
  settings_or_none = λ s. err (codes "bad");
  refresh_of = λ s. err (codes "bad");
  any_of = λ s. none;
}

abbrev pub site : Site
site = record {
  admin_token = codes "secret";
  setup = setup;
  send = λ c m. true;
  remote = remote;
  syntax = syntax;
  bodies = bodies;
  base64 = λ s. some (120 ∷ []);
  ranged = λ m. m;
  new_id = λ n. codes "dep-1";
  error_text = λ e. codes "error";
  start_error_text = λ e. codes "error";
  configure_error_text = λ e. codes "error";
  call_error_text = λ e. codes "error";
  api_error_text = λ e. codes "error";
  push_error_text = λ e. codes "error";
}

abbrev pub state : State
state = record { registry = empty; world = world; connector = connector }

abbrev pub upload : Request
upload = record {
  method = post_method;
  path = codes "api" ∷ codes "v1" ∷ codes "packages" ∷ [];
  authorization = codes "Bearer secret";
  x_actor = [];
  body = codes "{}";
}

-- Without the token.
abbrev pub refused : Request
refused = record upload { authorization = [] }

abbrev pub to_group : Text → Request
to_group name = record upload { method = put_method; body = name }
