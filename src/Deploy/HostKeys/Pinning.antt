-- ===== src/Deploy/HostKeys/Pinning.antt =====
-- internal/deploy/hostkeys.go: the host-key store over a sequence of connections.
use opsramp_agent_orchestrat.Prelude.{
  ◌≡◌, refl, sym, ap, In-if, ◌⊎◌, inl, inr, Bool, true, false, Option, none, some, List, [], ◌∷◌,
  arith, if◌then◌else◌, Text, text_eq, text_eq_iff, In, is_empty, some, text_eq_refl,
}
use opsramp_agent_orchestrat.Prelude.Dicts
use opsramp_agent_orchestrat.Prelude.Dicts.{dict_laws, get-put}
use opsramp_agent_orchestrat.Deploy.HostKeys.{
  KnownHosts, Coding, Store, host_of, verify, check, new_known_hosts,
}

module _ (c : Coding) where
  -- A connection attempt: whether the file can be written, the host name, and the key offered.
  pub record Attempt : Type 0 where
    pub writable : Bool
    pub hostname : Text
    pub key : Text

  pub after : Store c → List Attempt → Store c
  after s [] = s
  after s (a ∷ rest) = after (verify c a.writable s a.hostname a.key).1 rest

  -- The host and key of each attempt that was accepted.
  unfoldable pub accepted : Store c → List Attempt → List (Text × Text)
  accepted s [] = []
  accepted s (a ∷ rest) =
      let later = accepted (verify c a.writable s a.hostname a.key).1 rest in
      if (verify c a.writable s a.hostname a.key).0
      then (host_of c a.hostname, a.key) ∷ later
      else later

  abbrev pinned : Store c → Text → Option Text
  pinned s host = Dicts.get s.hosts.keys host

  -- A pin is never changed or dropped by a connection attempt.
  verify-keeps_pin :
      (a : Attempt) (s : Store c) (host fp : Text)
      → pinned s host ≡ some fp
      → pinned (verify c a.writable s a.hostname a.key).1 host ≡ some fp
  unfolding verify
  verify-keeps_pin a s host fp h =
      let k = host_of c a.hostname in
      ground (arith, get-put s.hosts.keys k host a.key, text_eq_iff k host)

  -- Of a host that is pinned, a key is accepted exactly when it is the pinned one.
  verify-pinned :
      (a : Attempt) (s : Store c) (fp : Text)
      → pinned s (host_of c a.hostname) ≡ some fp
      → (verify c a.writable s a.hostname a.key).0 ≡ text_eq fp a.key
  unfolding verify
  verify-pinned a s fp h = ground arith

  check_pins :
      (writable : Bool) (s : Store c) (host fp : Text) (o : Option Text)
      → pinned s host ≡ o
      → (check c writable s host fp o).0 ≡ true
      → pinned (check c writable s host fp o).1 host ≡ some fp
  unfolding check
  check_pins writable s host fp none p h =
      ground (arith, get-put s.hosts.keys host host fp, text_eq_refl host)
  check_pins writable s host fp (some x) p h = ground (arith, text_eq_iff x fp)

  -- What is accepted is pinned from then on.
  verify_pins :
      (a : Attempt) (s : Store c)
      → (verify c a.writable s a.hostname a.key).0 ≡ true
      → pinned (verify c a.writable s a.hostname a.key).1 (host_of c a.hostname) ≡ some a.key
  unfolding verify
  verify_pins a s h =
      check_pins a.writable s (host_of c a.hostname) a.key (pinned s (host_of c a.hostname)) refl h

  -- The store behind one attempt.
  abbrev next : Store c → Attempt → Store c
  next s a = (verify c a.writable s a.hostname a.key).1

  -- An attempt accepts `key` for `host`: it is pinned from then on, and any older pin is the same.
  record Accepts (s : Store c) (a : Attempt) (host key : Text) : Type 0 where
    pins : pinned (next s a) host ≡ some key
    old : (fp : Text) → pinned s host ≡ some fp → key ≡ fp

  verify-Accepts :
      (a : Attempt) (s : Store c) (host key : Text)
      → (verify c a.writable s a.hostname a.key).0 ≡ true
      → host_of c a.hostname ≡ host
      → a.key ≡ key
      → Accepts s a host key
  verify-Accepts a s host key v eh ek = record {
    pins = ground (arith, verify_pins a s v);
    old = λ fp p. ground (arith, verify-pinned a s fp (rw eh p), text_eq_iff fp a.key);
  }

  accepted-cases :
      (a : Attempt) (rest : List Attempt) (s : Store c) (host key : Text)
      → In (host, key) (accepted s (a ∷ rest))
      → Accepts s a host key ⊎ In (host, key) (accepted (next s a) rest)
  unfolding accepted
  accepted-cases a rest s host key h =
      elim (In-if (verify c a.writable s a.hostname a.key).0 (host_of c a.hostname, a.key)
        (host, key) (accepted (next s a) rest) h) [
          | inl (v, e) ↦ inl (
              verify-Accepts a s host key v (ap (λ (q : Text × Text). q.0) e)
                (ap (λ (q : Text × Text). q.1) e))
          | inr later ↦ inr later
        ]

  accepted_of_pinned :
      (attempts : List Attempt) (s : Store c) (host fp key : Text)
      → pinned s host ≡ some fp
      → In (host, key) (accepted s attempts)
      → key ≡ fp
  unfolding accepted
  accepted_of_pinned [] s host fp key p h = elim h [ ]
  accepted_of_pinned (a ∷ rest) s host fp key p h = elim (accepted-cases a rest s host key h) [
    | inl now ↦ now.old fp p
    | inr later ↦
        accepted_of_pinned rest (next s a) host fp key (verify-keeps_pin a s host fp p) later
  ]

  -- Two acceptances, each now or later, where the induction serves two later ones.
  one_key :
      (a : Attempt) (rest : List Attempt) (s : Store c) (host fp key : Text)
      → Accepts s a host fp ⊎ In (host, fp) (accepted (next s a) rest)
      → Accepts s a host key ⊎ In (host, key) (accepted (next s a) rest)
      → (In (host, fp) (accepted (next s a) rest)
          → In (host, key) (accepted (next s a) rest)
          → fp ≡ key)
      → fp ≡ key
  one_key a rest s host fp key (inl x) (inl y) ih = ground (arith, x.pins, y.pins)
  one_key a rest s host fp key (inl x) (inr later) ih =
      sym (accepted_of_pinned rest (next s a) host fp key x.pins later)
  one_key a rest s host fp key (inr later) (inl y) ih =
      accepted_of_pinned rest (next s a) host key fp y.pins later
  one_key a rest s host fp key (inr q) (inr r) ih = ih q r

  -- Over any connection attempts, all the keys ever accepted for one host are the same key.
  pub accepted_one_key :
      (attempts : List Attempt) (s : Store c) (host fp key : Text)
      → In (host, fp) (accepted s attempts)
      → In (host, key) (accepted s attempts)
      → fp ≡ key
  unfolding accepted
  accepted_one_key [] s host fp key p h = elim p [ ]
  accepted_one_key (a ∷ rest) s host fp key p h =
      one_key a rest s host fp key (accepted-cases a rest s host fp p)
        (accepted-cases a rest s host key h)
        (λ q r. accepted_one_key rest (next s a) host fp key q r)

  -- With a coding that reads back what it writes and a file that can be written, a store opened
  -- after an accepted connection pins the key of that connection.
  pub restart_keeps_pin :
      (a : Attempt) (s : Store c)
      → ((m : Dicts.Dict Text) → c.decode (c.encode m) ≡ m)
      → is_empty s.hosts.path ≡ false
      → a.writable ≡ true
      → pinned s (host_of c a.hostname) ≡ none
      → (k : KnownHosts) × (new_known_hosts c s.hosts.path (next s a).file ≡ some k)
        × (Dicts.get k.keys (host_of c a.hostname) ≡ some a.key)
  unfolding verify new_known_hosts
  restart_keeps_pin a s coded path writable fresh =
      let host = host_of c a.hostname in
      let m = Dicts.put s.hosts.keys host a.key in
      (
        record { path = s.hosts.path; keys = m },
        ground (arith, coded m),
        ground (arith, get-put s.hosts.keys host host a.key, text_eq_refl host),
      )
