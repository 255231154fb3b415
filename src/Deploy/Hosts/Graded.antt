-- ===== src/Deploy/Hosts/Graded.antt =====
-- internal/deploy/ssh.go: when a host counts as a success.
use opsramp_agent_orchestrat.Prelude.{
  ℕ, ◌≡◌, refl, true, false, Option, none, some, [], Text, codes, is_empty, Bool-cases,
  Option-cases, inl, inr, arith,
}
use opsramp_agent_orchestrat.Deploy.Commands.{
  InstallParams, max_output_bytes, build_install_command, truncate,
}
use opsramp_agent_orchestrat.Deploy.Dial.{Credentials}
use opsramp_agent_orchestrat.Deploy.Hosts.{Ran, Remote, is_zero, graded, install_on_host}

-- The command ran, and ended with 0.
abbrev pub IsClean : Ran → Type 0
IsClean ran = (ran.error ≡ none) × (ran.exit_code ≡ some 0)

is_zero_lem : (code : Option ℕ) → is_zero code ≡ true → code ≡ some 0
unfolding is_zero
is_zero_lem none h = ground (arith, h)
is_zero_lem (some n) h = ground (arith, h)

graded_lem :
    (r : Remote) (shown what : Text) (ran : Ran) (e : Option Text)
    → (graded r shown what ran e).ok ≡ true
    → (e ≡ none) × (ran.exit_code ≡ some 0) × ((graded r shown what ran e).err ≡ [])
unfolding graded
graded_lem r shown what ran (some x) h = ground (arith, h)
graded_lem r shown what ran none h = (refl, is_zero_lem ran.exit_code h, rw h refl)

-- A host counts as installed only where it was reached, there was an installer to upload and it was
-- uploaded, and the installer ran and ended with 0; then there is no error text.
pub install_on_host-ok :
    (r : Remote) (creds : Credentials) (p : InstallParams)
    → (install_on_host r creds p).ok ≡ true
    → (r.dial_error ≡ none)
      × (is_empty p.script ≡ false)
      × (r.upload_error ≡ none)
      × IsClean (r.run_command (build_install_command creds.use_sudo p))
      × ((install_on_host r creds p).err ≡ [])
unfolding install_on_host
install_on_host-ok r creds p h = elim (Option-cases r.dial_error) [
  | inr (e, q) ↦ ground (arith, rw q at h)
  | inl q ↦ elim (Bool-cases (is_empty p.script)) [
    | inl z ↦ ground (arith, rw (q, z) at h)
    | inr z ↦ elim (Option-cases r.upload_error) [
      | inr (e, u) ↦ ground (arith, rw (q, z, u) at h)
      | inl u ↦
          let ran : Ran = r.run_command (build_install_command creds.use_sudo p) in
          let (clean, code, no_text) =
            graded_lem r (truncate ran.output max_output_bytes) (codes "installer") ran ran.error
              (rw (q, z, u) at h) in
          rw (q, z, u) (refl, refl, refl, (clean, code), no_text)
    ]
  ]
]
