-- ===== src/Deploy/Commands/Words.antt =====
-- What the remote shell makes of the command lines of ssh.go.
use opsramp_agent_orchestrat.Prelude.{
  ℕ, ◌≡◌, ◌≤◌, ◌+◌, refl, Bool, true, false, some, List, [], ◌∷◌, ◌++◌, if◌then◌else◌, Text, codes,
  is_empty, trim_space, arith, length, zero, suc, length-append,
}
use opsramp_agent_orchestrat.Deploy.Shell.{word, lex, words, lex-shell_quote, lex-shell_quote_end}
use opsramp_agent_orchestrat.Deploy.Commands.{
  InstallParams, remote_script_path, build_install_command, optional_flag, probe_script,
  build_probe_command, uninstall_script, build_uninstall_command, take_bytes, truncate,
}

-- The arguments of an optional flag.
abbrev flag_words : Text → Text → List Text
flag_words flag [] = []
flag_words flag (c ∷ v) = flag ∷ (c ∷ v) ∷ []

-- The argument vector that the installer is meant to be called with.
abbrev pub install_words : Bool → InstallParams → List Text
install_words use_sudo p =
    (if use_sudo then codes "sudo" ∷ [] else [])
    ++ (codes "sh"
        ∷ remote_script_path
        ∷ codes "-i"
        ∷ codes "silent"
        ∷ codes "-K"
        ∷ p.key
        ∷ codes "-S"
        ∷ p.secret
        ∷ (flag_words (codes "-s") p.api_host
            ++ (flag_words (codes "-F") p.integration_id
                ++ (if p.enable_log_mgmt then codes "-L" ∷ codes "true" ∷ [] else []))))

-- The optional flags, read behind a word that is still open.
lex-flags :
    (w host integration : Text) (log : Bool)
    → lex (word w) (
        optional_flag (codes " -s ") host
        ++ (optional_flag (codes " -F ") integration ++ (if log then codes " -L true" else [])))
      ≡ some (
          w
          ∷ (flag_words (codes "-s") host
              ++ (flag_words (codes "-F") integration
                  ++ (if log then codes "-L" ∷ codes "true" ∷ [] else []))))
unfolding words optional_flag
lex-flags w [] [] true = refl
lex-flags w [] [] false = refl
lex-flags w [] (d ∷ i) true = simp lex-shell_quote
lex-flags w [] (d ∷ i) false = simp lex-shell_quote
lex-flags w (c ∷ h) [] true = simp lex-shell_quote
lex-flags w (c ∷ h) [] false = simp lex-shell_quote
lex-flags w (c ∷ h) (d ∷ i) true = simp lex-shell_quote
lex-flags w (c ∷ h) (d ∷ i) false = simp lex-shell_quote

-- The command that runs the installer reads, as shell words, exactly as the argument vector that is
-- meant: the key, the secret, the API host and the integration id each arrive as one word, unchanged,
-- whatever characters they hold.
pub words-build_install_command :
    (use_sudo : Bool) (p : InstallParams)
    → words (build_install_command use_sudo p) ≡ some (install_words use_sudo p)
unfolding words build_install_command
words-build_install_command true p = simp (lex-shell_quote, lex-flags)
words-build_install_command false p = simp (lex-shell_quote, lex-flags)

-- The probe is one `sh -c` of its script, whatever the API host.
pub words-build_probe_command :
    (api_host : Text)
    → words (build_probe_command api_host)
      ≡ some (codes "sh" ∷ codes "-c" ∷ probe_script api_host ∷ [])
unfolding words build_probe_command
words-build_probe_command api_host = rw lex-shell_quote_end

-- Without a command of the operator's own (blanks count as none) the uninstall is one `sh -c` of the
-- built-in script; otherwise it is that command, unchanged, behind `sudo` exactly when asked for.
pub words-build_uninstall_command :
    (use_sudo : Bool) (custom_cmd : Text)
    → let sudo = if use_sudo then codes "sudo " else [] in
      (is_empty (trim_space custom_cmd) ≡ true
        → words (build_uninstall_command use_sudo custom_cmd)
          ≡ some (codes "sh" ∷ codes "-c" ∷ uninstall_script sudo ∷ []))
      × (is_empty (trim_space custom_cmd) ≡ false
          → build_uninstall_command use_sudo custom_cmd ≡ sudo ++ custom_cmd)
unfolding words build_uninstall_command
words-build_uninstall_command use_sudo custom_cmd =
    (λ blank. rw blank (rw lex-shell_quote_end), λ given. rw given)

length-take_bytes : (n : ℕ) (s : List ℕ) → length (take_bytes n s) ≤ n
length-take_bytes zero s = omega arith
length-take_bytes (suc n) [] = omega arith
length-take_bytes (suc n) (c ∷ s) = omega (arith, length-take_bytes n s)

-- A captured output of at most `max` bytes is kept whole, and what is kept of a longer one never
-- passes `max` by more than the 15 bytes of the notice.
pub truncate_bounds :
    (s : List ℕ) (max : ℕ)
    → (length (truncate s max) ≤ max + 15) × (length s ≤ max → truncate s max ≡ s)
unfolding truncate
truncate_bounds s max = (
  ground (
    arith,
    length-append (take_bytes max s) (10 ∷ codes "...[truncated]"),
    length-take_bytes max s,
  ),
  λ fits. ground arith,
)
