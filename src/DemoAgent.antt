-- ===== src/DemoAgent.antt =====
-- cmd/demo-agent: the agent that exercises the server: its remote config (main.go), its packages
-- (packages.go) and its identity and description (util.go).
pub mod Description
pub mod Packages
pub mod Identity
pub mod Restart
pub mod Heard
use opsramp_agent_orchestrat.Prelude.{
  ℕ, Bool, true, false, not, ◌&&◌, Option, none, some, List, [], ◌∷◌, ◌++◌, ◌==◌, if◌then◌else◌,
  Text, codes, is_empty, map,
}
use opsramp_agent_orchestrat.Prelude.Dicts
use opsramp_agent_orchestrat.Prelude.Dicts.{Dict}
use opsramp_agent_orchestrat.Model.{ConfigFile}
use opsramp_agent_orchestrat.Opamp.Offers.{RemoteConfig}
use opsramp_agent_orchestrat.Opamp.Messages.{RemoteConfigStatus, applied, failed}

-- The directory of config files by their names, and the error of writing or reading a file, if there is
-- one.
pub record Disk : Type 0 where
  pub files : Dict (List ℕ)
  pub write_error : Text → Option Text
  pub readable : Text → Bool

-- `agent`, with the statuses that it has reported, the last one first.
pub record DemoAgent : Type 0 where
  pub effective : Dict ConfigFile
  pub disk : Disk
  pub reported : List RemoteConfigStatus

-- `strings.ReplaceAll(name, "/", "_")`
unfoldable pub flattened : Text → Text
flattened [] = []
flattened (c ∷ s) = (if c == b'/' then b'_' else c) ∷ flattened s

unfoldable pub safe_name : Text → Text
unfolding flattened
safe_name name = if is_empty (flattened name) then codes "config.yaml" else flattened name

unfoldable pub write_at : Disk → Text → List ℕ → Option Text → Disk × Option Text
write_at d name body (some e) = (d, some e)
write_at d name body none = (record d { files = Dicts.put d.files name body }, none)

unfoldable pub write_config_file : Disk → Text → List ℕ → Disk × Option Text
unfolding safe_name write_at
write_config_file d name body = write_at d (safe_name name) body (d.write_error (safe_name name))

abbrev pub unless_error : Disk × Option Text → (Disk → Disk × Option Text) → Disk × Option Text
unless_error (d, none) rest = rest d
unless_error (d, some e) rest = (d, some e)

-- The loop, which returns at the first error.
unfoldable pub write_files : Disk → Dict ConfigFile → Disk × Option Text
unfolding write_config_file
write_files d [] = (d, none)
write_files d ((name, f) ∷ m) =
    unless_error (write_config_file d name f.body) (λ written. write_files written m)

-- `newEffective`
unfoldable pub collected : Dict ConfigFile → Dict ConfigFile → Dict ConfigFile
collected m [] = m
collected m ((name, f) ∷ more) = collected (Dicts.put m name f) more

abbrev pub status_of : RemoteConfig → ℕ → Text → RemoteConfigStatus
status_of rc status e = record {
  last_remote_config_hash = rc.config_hash;
  status = status;
  error_message = e;
}

unfoldable pub written : DemoAgent → RemoteConfig → Disk × Option Text → DemoAgent
unfolding collected
written a rc (d, some e) = record {
  effective = a.effective;
  disk = d;
  reported = status_of rc failed e ∷ a.reported;
}
written a rc (d, none) = record {
  effective = collected [] rc.config;
  disk = d;
  reported = status_of rc applied [] ∷ a.reported;
}

-- An offered config always has its map.
unfoldable pub apply_remote_config : DemoAgent → RemoteConfig → DemoAgent
unfolding written write_files
apply_remote_config a rc = written a rc (write_files a.disk rc.config)

-- `onMessage`, of the part that is answered at once.
unfoldable pub on_offer : DemoAgent → Option RemoteConfig → DemoAgent
unfolding apply_remote_config
on_offer a none = a
on_offer a (some rc) = apply_remote_config a rc

-- The entries that can be read, by their names on the disk.
unfoldable pub read_files : Disk → Dict (List ℕ) → Dict ConfigFile → Dict ConfigFile
read_files d [] m = m
read_files d ((name, body) ∷ more) m = read_files d more (
    if d.readable name
    then Dicts.put m name (record { body = body; content_type = codes "text/yaml" })
    else m)

unfoldable pub load_persisted_config : DemoAgent → DemoAgent
unfolding read_files
load_persisted_config a = record a { effective = read_files a.disk a.disk.files a.effective }

-- The agent that starts again on the same disk.
unfoldable pub restarted : DemoAgent → DemoAgent
unfolding load_persisted_config
restarted a = load_persisted_config (record { effective = []; disk = a.disk; reported = [] })
