-- ===== src/Tests/Deploying.antt =====
-- The theorems on bulk deployment, at concrete jobs, targets and keys.
use opsramp_agent_orchestrat.Prelude.{
  ◌+◌, ◌-◌, ◌≤◌, ◌<◌, ◌%◌, ◌≡◌, refl, ◌↔◌, true, false, none, some, [], ◌∷◌, length, Text, codes,
  text_eq, leb, inl, inr, is_empty, if◌then◌else◌, ok, err, In, arith,
}
use opsramp_agent_orchestrat.Prelude.Dicts
use opsramp_agent_orchestrat.Store.World.{exists}
use opsramp_agent_orchestrat.Deploy.Address.{block4}
use opsramp_agent_orchestrat.Deploy.Shell.{words}
use opsramp_agent_orchestrat.Deploy.Commands.{InstallParams, build_install_command}
use opsramp_agent_orchestrat.Deploy.Commands.Words.{install_words, words-build_install_command}
use opsramp_agent_orchestrat.Deploy.Targets.{
  fields, expand_tokens, expand_token, has_char, add_all, add, expand_targets, expand_cidr,
  cidr_too_large, max_targets, TargetError, cut,
}
use opsramp_agent_orchestrat.Deploy.Targets.Hyphens.{expand_targets-hyphen}
use opsramp_agent_orchestrat.Deploy.Targets.Spec.{IsNodup, Lists, expand_targets-eq_ok}
use opsramp_agent_orchestrat.Deploy.Targets.Blocks.{hosts4, expand_cidr-v4}
use opsramp_agent_orchestrat.Deploy.HostKeys.{verify, Coding, Store, missing}
use opsramp_agent_orchestrat.Deploy.HostKeys.Pinning.{Attempt, accepted, accepted_one_key}
use opsramp_agent_orchestrat.Deploy.Start.{
  Started, is_action, is_install_action, action_of, new_job, renewed, start_job, probe,
}
use opsramp_agent_orchestrat.Deploy.Start.Checks.{CanLogIn, start_job-ok}
use opsramp_agent_orchestrat.Deploy.Dial.{Credentials, Network, tunnel, same_handle, dial}
use opsramp_agent_orchestrat.Deploy.Dial.Closed.{ClosesAll, dial-ClosesAll}
use opsramp_agent_orchestrat.Tests.Samples.{syntax, world, spec, request, source}

abbrev params : InstallParams
params = record {
  api_host = codes "x.api";
  key = codes "it's";
  secret = codes "a b";
  integration_id = [];
  enable_log_mgmt = true;
  script = 35 ∷ [];
}

words-build_install_command_example :
    words (build_install_command true params) ≡ some (install_words true params)
words-build_install_command_example = words-build_install_command true params

expand_targets-eq_ok_example :
    IsNodup (codes "a" ∷ codes "b" ∷ [])
    × (0 < length (codes "a" ∷ codes "b" ∷ []))
    × (length (codes "a" ∷ codes "b" ∷ []) ≤ max_targets)
    × ((h : Text)
        → In h (codes "a" ∷ codes "b" ∷ []) ↔ ((is_empty h ≡ false) × Lists syntax h (fields spec)))
unfolding expand_targets expand_tokens fields expand_token has_char add_all add text_eq
expand_targets-eq_ok_example = expand_targets-eq_ok syntax spec (codes "a" ∷ codes "b" ∷ []) refl

expand_cidr-v4_example : expand_cidr syntax (codes "0.0.0.9/31") ≡ (
    if leb 31 30
    then (if leb (block4 31 - 2) max_targets
        then ok (hosts4 syntax (block4 31 - 2) (9 - 9 % block4 31 + 1))
        else err (cidr_too_large (codes "0.0.0.9/31")))
    else ok (hosts4 syntax (block4 31) (9 - 9 % block4 31)))
expand_cidr-v4_example =
    expand_cidr-v4 syntax (codes "0.0.0.9/31") 9 31 refl (ground arith) (ground arith)

abbrev coding : Coding
coding = record { split_host = λ t. none; encode = λ m. []; decode = λ t. [] }

abbrev store : Store coding
store = record { hosts = record { path = []; keys = [] }; file = missing }

abbrev attempt : Attempt coding
attempt = record { writable = true; hostname = codes "h"; key = codes "k" }

accepted_one_key_example : codes "k" ≡ codes "k"
unfolding accepted verify Dicts.get Dicts.put text_eq
accepted_one_key_example =
    accepted_one_key coding (attempt ∷ attempt ∷ []) store (codes "h") (codes "k") (codes "k")
      (inl refl) (inr (inl refl))

abbrev started : Started
started =
    (new_job (codes "j") request (codes "a" ∷ codes "b" ∷ []), codes "a" ∷ codes "b" ∷ [], probe [])

start_job-ok_example :
    (is_action (action_of request) ≡ true)
    × (expand_targets syntax spec ≡ ok started.1)
    × (started.0 ≡ new_job (codes "j") request started.1)
    × CanLogIn request
    × (renewed source ≡ none)
    × (is_install_action (action_of request) ≡ true → source.install_params.enabled ≡ true)
unfolding start_job exists expand_targets expand_tokens fields expand_token has_char add_all add
    text_eq
start_job-ok_example = start_job-ok syntax source (codes "j") request world started refl

-- Every connection opens, and the handshake with the host behind the bastion fails.
abbrev network : Network
network = record {
  parse_key = λ k p. none;
  connect = λ a. none;
  handshake = λ h a u x. if same_handle h tunnel then some (codes "no") else none;
  through = λ a. none;
}

abbrev behind : Credentials
behind = record request.creds { bastion_host = codes "gate"; bastion_password = codes "pw" }

dial-ClosesAll_example : ClosesAll (dial network (codes "h") behind)
dial-ClosesAll_example = dial-ClosesAll network (codes "h") behind

expand_targets-hyphen_example :
    (e : TargetError) × (expand_targets syntax (codes "web-01.internal") ≡ err e)
unfolding fields has_char cut
expand_targets-hyphen_example =
    expand_targets-hyphen syntax (codes "web-01.internal") (codes "web-01.internal") (codes "web")
      (codes "01.internal") (inl refl) refl refl refl refl
