-- ===== src/DemoAgent/Restart.antt =====
-- cmd/demo-agent/main.go: the files of earlier configs, over a restart.
use opsramp_agent_orchestrat.Prelude.Dicts.{has_key-put, Dict, has_key}
use opsramp_agent_orchestrat.Prelude.{
  ℕ, ◌≡◌, refl, ap, ◌∙◌, Bool, true, false, none, List, [], ◌∷◌, if◌then◌else◌, Text, text_eq,
  text_eq_iff, codes, Bool-cases, inl, inr, arith,
}
use opsramp_agent_orchestrat.Prelude.Dicts
use opsramp_agent_orchestrat.Model.{ConfigFile}
use opsramp_agent_orchestrat.Opamp.Offers.{RemoteConfig}
use opsramp_agent_orchestrat.Opamp.Messages.{applied}
use opsramp_agent_orchestrat.DemoAgent.{
  Disk, DemoAgent, safe_name, write_files, collected, status_of, written, apply_remote_config,
  read_files, restarted,
}

-- No write fails.
abbrev pub IsWritable : Disk → Type 0
IsWritable d = (name : Text) → d.write_error name ≡ none

-- The disk behind writing files, without an error.
stored : Disk → Dict ConfigFile → Disk
stored d [] = d
stored d ((name, f) ∷ m) = stored (record d { files = Dicts.put d.files (safe_name name) f.body }) m

write_files-IsWritable :
    (d : Disk) (m : Dict ConfigFile) → IsWritable d → write_files d m ≡ (stored d m, none)
unfolding write_files stored
write_files-IsWritable d [] h = refl
write_files-IsWritable d ((name, f) ∷ m) h =
    rw (h (safe_name name))
      (write_files-IsWritable (record d { files = Dicts.put d.files (safe_name name) f.body }) m h)

-- Writing removes nothing.
stored-has_key :
    (d : Disk) (m : Dict ConfigFile) (k : Text)
    → has_key d.files k ≡ true
    → has_key (stored d m).files k ≡ true
unfolding stored
stored-has_key d [] k h = h
stored-has_key d ((name, f) ∷ m) k h =
    stored-has_key (record d { files = Dicts.put d.files (safe_name name) f.body }) m k
      (has_key-put d.files (safe_name name) k f.body ∙ ground (arith, h))

stored-readable : (d : Disk) (m : Dict ConfigFile) → (stored d m).readable ≡ d.readable
unfolding stored
stored-readable d [] = refl
stored-readable d ((name, f) ∷ m) =
    stored-readable (record d { files = Dicts.put d.files (safe_name name) f.body }) m

collected-has_key :
    (m more : Dict ConfigFile) (k : Text)
    → has_key m k ≡ false
    → has_key more k ≡ false
    → has_key (collected m more) k ≡ false
unfolding collected has_key
collected-has_key m [] k p q = p
collected-has_key m ((name, f) ∷ more) k p q =
    collected-has_key (Dicts.put m name f) more k (has_key-put m name k f ∙ ground (arith, p, q))
      (ground (arith, q))

read_files-keeps :
    (d : Disk) (fs : Dict (List ℕ)) (m : Dict ConfigFile) (k : Text)
    → has_key m k ≡ true
    → has_key (read_files d fs m) k ≡ true
unfolding read_files
read_files-keeps d [] m k h = h
read_files-keeps d ((name, body) ∷ fs) m k h = elim (Bool-cases (d.readable name)) [
  | inl e ↦ rw e (
      read_files-keeps d fs
        (Dicts.put m name (record { body = body; content_type = codes "text/yaml" })) k
        (has_key-put m name k (record { body = body; content_type = codes "text/yaml" })
          ∙ ground (arith, h)))
  | inr e ↦ rw e (read_files-keeps d fs m k h)
]

read_files-has_key :
    (d : Disk) (fs : Dict (List ℕ)) (m : Dict ConfigFile) (k : Text)
    → d.readable k ≡ true
    → has_key fs k ≡ true
    → has_key (read_files d fs m) k ≡ true
unfolding read_files has_key
read_files-has_key d [] m k r h = ground (arith, h)
read_files-has_key d ((name, body) ∷ fs) m k r h = elim (Bool-cases (text_eq name k)) [
  | inr e ↦
      read_files-has_key d fs
        (if d.readable name
          then Dicts.put m name (record { body = body; content_type = codes "text/yaml" })
          else m)
        k r (ground (arith, e, h))
  | inl e ↦
      let readable : d.readable name ≡ true = ap d.readable ((text_eq_iff name k).0 e) ∙ r in
      rw readable (
        read_files-keeps d fs
          (Dicts.put m name (record { body = body; content_type = codes "text/yaml" })) k
          (has_key-put m name k (record { body = body; content_type = codes "text/yaml" })
            ∙ rw e refl))
]

-- Where no write fails, an offered config without a file that is on the disk from an earlier one is
-- reported as applied and the file is not in effect; but the file stays on the disk, and is in effect
-- again once the agent starts anew, if it can be read.
pub apply_remote_config-stale :
    (a : DemoAgent) (rc : RemoteConfig) (k : Text)
    → IsWritable a.disk
    → has_key a.disk.files k ≡ true
    → a.disk.readable k ≡ true
    → has_key rc.config k ≡ false
    → ((apply_remote_config a rc).reported ≡ status_of rc applied [] ∷ a.reported)
      × (has_key (apply_remote_config a rc).effective k ≡ false)
      × (has_key (restarted (apply_remote_config a rc)).effective k ≡ true)
unfolding apply_remote_config written restarted has_key
apply_remote_config-stale a rc k writable on_disk readable gone =
    let d : Disk = stored a.disk rc.config in
    rw (write_files-IsWritable a.disk rc.config writable) (
      refl,
      collected-has_key [] rc.config k refl gone,
      read_files-has_key d d.files [] k
          (ap (λ (f : Text → Bool). f k) (stored-readable a.disk rc.config) ∙ readable)
          (stored-has_key a.disk rc.config k on_disk),
    )
