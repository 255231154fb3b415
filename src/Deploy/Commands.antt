-- ===== src/Deploy/Commands.antt =====
-- internal/deploy/ssh.go: the command lines that run on a target host, and `truncate`.
pub mod Words
use opsramp_agent_orchestrat.Prelude.{
  ℕ, zero, suc, Bool, true, false, List, [], ◌∷◌, ◌++◌, leb, length, if◌then◌else◌, Text, codes,
  is_empty, trim_space,
}
use opsramp_agent_orchestrat.Deploy.Shell.{shell_quote}

pub record InstallParams : Type 0 where
  pub api_host : Text
  pub key : Text
  pub secret : Text
  pub integration_id : Text
  pub enable_log_mgmt : Bool
  pub script : List ℕ

abbrev pub remote_script_path : Text
remote_script_path = codes "/tmp/opsramp-deployAgent.sh"

abbrev pub max_output_bytes : ℕ
max_output_bytes = 65536

-- `-s host` and `-F id` are written only for a value that is not empty.
optional_flag : Text → Text → Text
optional_flag flag [] = []
optional_flag flag (c ∷ v) = flag ++ shell_quote (c ∷ v)

unfoldable pub build_install_command : Bool → InstallParams → Text
unfolding optional_flag
build_install_command use_sudo p =
    (if use_sudo then codes "sudo " else [])
    ++ (codes "sh "
        ++ (remote_script_path
            ++ (codes " -i silent"
                ++ (codes " -K "
                    ++ (shell_quote p.key
                        ++ (codes " -S "
                            ++ (shell_quote p.secret
                                ++ (optional_flag (codes " -s ") p.api_host
                                    ++ (optional_flag (codes " -F ") p.integration_id
                                        ++ (if p.enable_log_mgmt
                                            then codes " -L true"
                                            else []))))))))))

-- `strings.Join(lines, "\n")`
join_lines : List Text → Text
join_lines [] = []
join_lines (l ∷ []) = l
join_lines (l ∷ m ∷ ls) = l ++ 10 ∷ join_lines (m ∷ ls)

-- Whether the API host can be reached, by curl, nc or bash, or `API=skip` without a host.
reach_check : Text → Text
reach_check [] = codes "echo API=skip"
reach_check (c ∷ host) =
    let h = shell_quote (c ∷ host) in
    codes "if command -v curl >/dev/null 2>&1; then curl -sS -o /dev/null -m 6 https://"
    ++ (h
        ++ (codes " && echo API=ok || echo API=fail; "
            ++ (codes "elif command -v nc >/dev/null 2>&1; then nc -z -w5 "
                ++ (h
                    ++ (codes " 443 && echo API=ok || echo API=fail; else (exec 3<>/dev/tcp/"
                        ++ (h
                            ++ codes
                                "/443) 2>/dev/null && { echo API=ok; exec 3>&-; } || echo API=fail; fi"))))))

unfoldable pub probe_script : Text → Text
unfolding join_lines reach_check
probe_script api_host = join_lines (
    codes "echo \"OS=$(. /etc/os-release 2>/dev/null; echo \"${PRETTY_NAME:-$(uname -s)}\")\""
    ∷ codes "echo \"KERNEL=$(uname -r 2>/dev/null)\""
    ∷ codes "echo \"ARCH=$(uname -m 2>/dev/null)\""
    ∷ codes
        "if command -v sudo >/dev/null 2>&1; then if sudo -n true 2>/dev/null; then echo \"SUDO=nopasswd\"; else echo \"SUDO=password-required\"; fi; else echo \"SUDO=absent\"; fi"
    ∷ codes
        "if [ -d /opt/opsramp/agent ] || command -v opsramp-agent >/dev/null 2>&1; then echo \"AGENT=present\"; else echo \"AGENT=absent\"; fi"
    ∷ codes "echo \"DISK_ROOT_MB=$(df -Pm / 2>/dev/null | awk 'NR==2{print $4}')\""
    ∷ reach_check api_host
    ∷ [])

unfoldable pub build_probe_command : Text → Text
build_probe_command api_host = codes "sh -c " ++ shell_quote (probe_script api_host)

-- `dpkg`, `rpm`, `pkg`, then a bare installation directory; each step behind `sudo` when asked.
unfoldable pub uninstall_script : Text → Text
unfolding join_lines
uninstall_script sudo = join_lines (
    (codes "if command -v dpkg >/dev/null 2>&1 && dpkg -l opsramp-agent >/dev/null 2>&1; then "
      ++ (sudo
          ++ (codes "dpkg -P opsramp-agent 2>&1; "
              ++ (sudo
                  ++ (codes "rm -rf /opt/opsramp/agent; "
                      ++ (sudo ++ codes "rmdir /opt/opsramp 2>/dev/null;"))))))
    ∷ (codes
          "elif command -v rpm >/dev/null 2>&1 && rpm -qa 2>/dev/null | grep -q opsramp-agent; then "
        ++ (sudo
            ++ (codes "rpm -e opsramp-agent 2>&1; "
                ++ (sudo
                    ++ (codes "rm -rf /opt/opsramp/agent; "
                        ++ (sudo ++ codes "rmdir /opt/opsramp 2>/dev/null;"))))))
    ∷ (codes "elif command -v pkg >/dev/null 2>&1 && pkg info opsramp-agent >/dev/null 2>&1; then "
        ++ (sudo
            ++ (codes "pkg remove -y opsramp-agent 2>&1; "
                ++ (sudo ++ codes "rm -rf /opt/opsramp/agent 2>/dev/null;"))))
    ∷ (codes "elif [ -d /opt/opsramp/agent ]; then "
        ++ (codes "[ -x /opt/opsramp/agent/opsramp-agent ] && "
            ++ (sudo
                ++ (codes "/opt/opsramp/agent/opsramp-agent uninstall 2>&1; "
                    ++ (sudo
                        ++ (codes "rm -rf /opt/opsramp/agent; "
                            ++ (sudo ++ codes "rmdir /opt/opsramp 2>/dev/null;")))))))
    ∷ codes "else echo \"opsramp agent not found on host\"; exit 0; fi"
    ∷ [])

unfoldable pub build_uninstall_command : Bool → Text → Text
build_uninstall_command use_sudo custom_cmd =
    let sudo = if use_sudo then codes "sudo " else [] in
    if is_empty (trim_space custom_cmd)
    then codes "sh -c " ++ shell_quote (uninstall_script sudo)
    else sudo ++ custom_cmd

abbrev take_bytes : ℕ → List ℕ → List ℕ
take_bytes zero s = []
take_bytes (suc n) [] = []
take_bytes (suc n) (c ∷ s) = c ∷ take_bytes n s

-- `s[:max] + "\n...[truncated]"` for what is longer than `max` bytes.
unfoldable pub truncate : List ℕ → ℕ → List ℕ
truncate s max = if leb (length s) max then s else take_bytes max s ++ 10 ∷ codes "...[truncated]"
