-- ===== src/Deploy/Work/Deregistered.antt =====
-- internal/deploy/manager.go: what deregistering changes of an uninstall.
use opsramp_agent_orchestrat.Prelude.{
  ◌≡◌, refl, ap, Bool, true, false, ◌&&◌, Option, none, some, ◌++◌, if◌then◌else◌, Text, codes,
  Bool-cases, inl, inr, arith,
}
use opsramp_agent_orchestrat.Store.World.{World}
use opsramp_agent_orchestrat.Deploy.Dial.{Credentials}
use opsramp_agent_orchestrat.Deploy.Hosts.{HostOutcome, Remote, uninstall_on_host}
use opsramp_agent_orchestrat.Deploy.Start.{uninstall}
use opsramp_agent_orchestrat.Deploy.Work.{Deregister, deregister_note, noted, on_host}

-- What is said of a deregistration: its error, else whether there was a resource to remove.
abbrev pub note_of : Bool × Option Text → Text
note_of (found, e) = elim e as (λ _. Text) [
  | none ↦
      if found
      then codes "\n[deregister] resource removed from OpsRamp"
      else codes "\n[deregister] no matching OpsRamp resource"
  | some reason ↦ codes "\n[deregister] error: " ++ reason
]

deregister_note-note_of : (p : Bool × Option Text) → deregister_note p ≡ note_of p
unfolding deregister_note
deregister_note-note_of (found, some e) = refl
deregister_note-note_of (true, none) = refl
deregister_note-note_of (false, none) = refl

-- The verdict, the exit code and the error on a host are those of the uninstall, whatever the
-- deregistration gives. Where the uninstall succeeded and a deregistration is wanted, the output is what
-- the host printed, with a note of the deregistration's result behind it, and the world is the one that the
-- deregistration leaves; in every other case nothing is deregistered and the outcome is the uninstall's.
pub on_host-uninstall :
    (dereg : Deregister) (r : Remote) (creds : Credentials) (host cmd : Text) (wanted : Bool)
    (w : World)
    → ((on_host dereg r creds host (uninstall cmd wanted) w).0.ok
        ≡ (uninstall_on_host r creds cmd).ok)
      × ((on_host dereg r creds host (uninstall cmd wanted) w).0.exit_code
          ≡ (uninstall_on_host r creds cmd).exit_code)
      × ((on_host dereg r creds host (uninstall cmd wanted) w).0.err
          ≡ (uninstall_on_host r creds cmd).err)
      × ((uninstall_on_host r creds cmd).ok ≡ true
          → wanted ≡ true
          → ((on_host dereg r creds host (uninstall cmd wanted) w).0.output
              ≡ (uninstall_on_host r creds cmd).output ++ note_of (dereg host w).0)
            × ((on_host dereg r creds host (uninstall cmd wanted) w).1 ≡ (dereg host w).1))
      × (((uninstall_on_host r creds cmd).ok && wanted) ≡ false
          → on_host dereg r creds host (uninstall cmd wanted) w
            ≡ (uninstall_on_host r creds cmd, w))
unfolding on_host noted
on_host-uninstall dereg r creds host cmd wanted w =
    let out : HostOutcome = uninstall_on_host r creds cmd in
    elim (Bool-cases (out.ok && wanted)) [
      | inl e ↦ rw e (
        refl,
        refl,
        refl,
        λ good asked. (ap (λ n. out.output ++ n) (deregister_note-note_of (dereg host w).0), refl),
        λ h. ground (arith, h),
      )
      | inr e ↦ rw e (refl, refl, refl, λ good asked. ground (arith, e, good, asked), λ h. refl)
    ]
