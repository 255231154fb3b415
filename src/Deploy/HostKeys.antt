-- ===== src/Deploy/HostKeys.antt =====
-- internal/deploy/hostkeys.go: trust on first use. `net.SplitHostPort` and the JSON coding of the
-- file are parameters; the key arrives as the base64 text of its marshaled form.
pub mod Pinning
use opsramp_agent_orchestrat.Prelude.{
  Bool, true, false, Option, none, some, List, [], ◌∷◌, if◌then◌else◌, Text, codes, text_eq,
  is_empty, Result, ok, err,
}
use opsramp_agent_orchestrat.Prelude.Dicts
use opsramp_agent_orchestrat.Prelude.Dicts.{Dict}

-- What the file at the store's path is, for `os.ReadFile`.
pub data File : Type 0 where
  missing : File
  unreadable : File
  content : Text → File

pub record KnownHosts : Type 0 where
  pub path : Text
  pub keys : Dict Text

-- The text functions of other packages that the store calls.
pub record Coding : Type 0 where
  -- `net.SplitHostPort`, its host; `none` is an error.
  pub split_host : Text → Option Text
  -- `json.MarshalIndent` and `json.Unmarshal` on the map of keys.
  pub encode : Dict Text → Text
  pub decode : Text → Dict Text

module _ (c : Coding) where
  -- `NewKnownHosts`; `none` is the error of a file that is there and cannot be read.
  unfoldable pub new_known_hosts : Text → File → Option KnownHosts
  new_known_hosts path missing = some (record { path = path; keys = [] })
  new_known_hosts path unreadable = none
  new_known_hosts path (content text) = some (record { path = path; keys = c.decode text })

  -- A write fails, or not, without the caller learning of it.
  unfoldable pub persist_locked : Bool → KnownHosts → File → File
  persist_locked writable k file =
      if is_empty k.path then file else if writable then content (c.encode k.keys) else file

  unfoldable pub host_of : Text → Text
  host_of hostname = elim (c.split_host hostname) [ none ↦ hostname | some h ↦ h ]

  pub record Store : Type 0 where
    pub hosts : KnownHosts
    pub file : File

  -- The first contact pins the key.
  pin : Bool → Store → Text → Text → Store
  unfolding persist_locked
  pin writable s host fp =
      let k = record s.hosts { keys = Dicts.put s.hosts.keys host fp } in
      record { hosts = k; file = persist_locked writable k s.file }

  check : Bool → Store → Text → Text → Option Text → Bool × Store
  unfolding pin
  check writable s host fp none = (true, pin writable s host fp)
  check writable s host fp (some existing) = (text_eq existing fp, s)

  -- One call of the host-key callback: whether the key is accepted, and the store behind it.
  unfoldable pub verify : Bool → Store → Text → Text → Bool × Store
  unfolding check host_of
  verify writable s hostname fp =
      let host = host_of hostname in check writable s host fp (Dicts.get s.hosts.keys host)
