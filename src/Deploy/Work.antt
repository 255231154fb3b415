-- ===== src/Deploy/Work.antt =====
-- internal/deploy/manager.go: `perHost`, what a worker does on a host, with the deregistration behind an
-- uninstall. The connector's `DeregisterByHost` is an argument.
pub mod Deregistered
use opsramp_agent_orchestrat.Prelude.{
  ℕ, Bool, true, false, ◌&&◌, Option, none, some, ◌++◌, if◌then◌else◌, Text, codes, List,
}
use opsramp_agent_orchestrat.Store.World.{World}
use opsramp_agent_orchestrat.Deploy.Commands.{InstallParams}
use opsramp_agent_orchestrat.Deploy.Dial.{Credentials}
use opsramp_agent_orchestrat.Deploy.Hosts.{
  HostOutcome, Remote, install_on_host, probe_host, uninstall_on_host,
}
use opsramp_agent_orchestrat.Deploy.Start.{PerHost, install, probe, uninstall}

-- Whether a resource was found, and the error's text, if there is one.
abbrev pub Deregister : Type 0
Deregister = Text → World → (Bool × Option Text) × World

unfoldable pub deregister_note : Bool × Option Text → Text
deregister_note (found, some e) = codes "\n[deregister] error: " ++ e
deregister_note (true, none) = codes "\n[deregister] resource removed from OpsRamp"
deregister_note (false, none) = codes "\n[deregister] no matching OpsRamp resource"

unfoldable pub noted : HostOutcome → (Bool × Option Text) × World → HostOutcome × World
unfolding deregister_note
noted out (r, w) = (record out { output = out.output ++ deregister_note r }, w)

unfoldable pub after_uninstall :
    Deregister → Bool → Text → HostOutcome → World → HostOutcome × World
unfolding noted
after_uninstall dereg wanted host out w =
    if out.ok && wanted then noted out (dereg host w) else (out, w)

unfoldable pub on_host :
    Deregister → Remote → Credentials → Text → PerHost → World → HostOutcome × World
unfolding install_on_host probe_host uninstall_on_host after_uninstall
on_host dereg r creds host (install p) w = (install_on_host r creds p, w)
on_host dereg r creds host (probe api_host) w = (probe_host r api_host, w)
on_host dereg r creds host (uninstall cmd wanted) w =
    after_uninstall dereg wanted host (uninstall_on_host r creds cmd) w
