-- ===== src/Deploy/Hosts.antt =====
-- internal/deploy/ssh.go: what is done on one host, and its outcome.
pub mod Graded
use opsramp_agent_orchestrat.Prelude.{
  ℕ, Bool, false, Option, none, some, [], ◌++◌, ◌==◌, if◌then◌else◌, Text, codes, decimal, is_empty,
  ◌||◌,
}
use opsramp_agent_orchestrat.Deploy.Commands.{
  InstallParams, max_output_bytes, build_install_command, build_probe_command,
  build_uninstall_command, truncate,
}
use opsramp_agent_orchestrat.Deploy.Dial.{Credentials}

pub record HostOutcome : Type 0 where
  pub ok : Bool
  pub exit_code : Option ℕ
  pub output : Text
  pub err : Text
  pub duration_ms : ℕ

-- What a command gives: its output, its exit code, and the error of running it, if there is one.
pub record Ran : Type 0 where
  pub output : Text
  pub exit_code : Option ℕ
  pub error : Option Text

-- What happens on a host: the error of the dial, of the upload, and the command's result by its text.
pub record Remote : Type 0 where
  pub dial_error : Option Text
  pub upload_error : Option Text
  pub run_command : Text → Ran
  -- the milliseconds that it takes
  pub duration_ms : ℕ

unfoldable pub failed_with : Remote → Text → Text → HostOutcome
failed_with r output e = record {
  ok = false;
  exit_code = some 0;
  output = output;
  err = e;
  duration_ms = r.duration_ms;
}

unfoldable code_text : Option ℕ → Text
code_text none = codes "-1"
code_text (some n) = decimal n

unfoldable is_zero : Option ℕ → Bool
is_zero none = false
is_zero (some n) = n == 0

-- The outcome of a command that was run, with the words that name it.
unfoldable graded : Remote → Text → Text → Ran → Option Text → HostOutcome
unfolding code_text is_zero
graded r shown what ran (some e) = record {
  ok = false;
  exit_code = ran.exit_code;
  output = shown;
  err = e;
  duration_ms = r.duration_ms;
}
graded r shown what ran none = record {
  ok = is_zero ran.exit_code;
  exit_code = ran.exit_code;
  output = shown;
  err =
      if is_zero ran.exit_code || is_empty what
      then []
      else what ++ codes " exited with code " ++ code_text ran.exit_code;
  duration_ms = r.duration_ms;
}

unfoldable pub install_on_host : Remote → Credentials → InstallParams → HostOutcome
unfolding failed_with graded build_install_command truncate
install_on_host r creds p = elim r.dial_error [
  | some e ↦ failed_with r [] e
  | none ↦
      if is_empty p.script
      then failed_with r []
          (codes "no installer script available (is the OpsRamp connector configured?)")
      else elim r.upload_error [
        | some e ↦ failed_with r [] (codes "upload installer: " ++ e)
        | none ↦
            let ran = r.run_command (build_install_command creds.use_sudo p) in
            graded r (truncate ran.output max_output_bytes) (codes "installer") ran ran.error
      ]
]

-- An unreachable host is a result of its own; a probe that fails has no words for it.
unfoldable pub probe_host : Remote → Text → HostOutcome
unfolding failed_with graded build_probe_command truncate
probe_host r api_host = elim r.dial_error [
  | some e ↦ failed_with r (codes "SSH=fail") e
  | none ↦
      let ran = r.run_command (build_probe_command api_host) in
      graded r (codes "SSH=ok\n" ++ truncate ran.output max_output_bytes) [] ran ran.error
]

unfoldable pub uninstall_on_host : Remote → Credentials → Text → HostOutcome
unfolding failed_with graded build_uninstall_command truncate
uninstall_on_host r creds custom_cmd = elim r.dial_error [
  | some e ↦ failed_with r [] e
  | none ↦
      let ran = r.run_command (build_uninstall_command creds.use_sudo custom_cmd) in
      graded r (truncate ran.output max_output_bytes) (codes "uninstall") ran ran.error
]
