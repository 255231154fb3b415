-- ===== src/Deploy/Dial/Closed.antt =====
-- internal/deploy/ssh.go: the connections that `dial` and `clientFromConn` leave open.
use opsramp_agent_orchestrat.Prelude.{
  ◌≡◌, refl, Bool, true, false, Option, none, some, [], ◌∷◌, if◌then◌else◌, Text, is_empty,
  trim_space, Result, ok, err,
}
use opsramp_agent_orchestrat.Deploy.Dial.{
  Credentials, direct, bastion, tunnel, close, Auth, Network, auth_from, Dialled, shaken,
  client_from_conn, after_direct, dial_direct, after_tunnel, dial_tunnel, after_bastion,
  dial_bastion, with_bastion_auth, with_auth, dial, hang_up, join_host_port, port_or, or_user,
}

-- Nothing is open behind an error; behind a success nothing is, once the client and the cleanup are done.
abbrev pub ClosesAll : Dialled → Type 0
ClosesAll (err e, o) = o ≡ []
ClosesAll (ok c, o) = hang_up c o ≡ []

after_direct-ClosesAll :
    (e : Option Text) → ClosesAll (after_direct (shaken direct (direct ∷ []) e))
unfolding after_direct shaken hang_up close
after_direct-ClosesAll none = refl
after_direct-ClosesAll (some x) = refl

dial_direct-ClosesAll :
    (net : Network) (addr user : Text) (auth : Auth) (e : Option Text)
    → ClosesAll (dial_direct net addr user auth e)
unfolding dial_direct client_from_conn
dial_direct-ClosesAll net addr user auth (some x) = refl
dial_direct-ClosesAll net addr user auth none =
    after_direct-ClosesAll (net.handshake direct addr user auth)

after_tunnel-ClosesAll :
    (e : Option Text) → ClosesAll (after_tunnel (shaken tunnel (tunnel ∷ bastion ∷ []) e))
unfolding after_tunnel shaken hang_up close
after_tunnel-ClosesAll none = refl
after_tunnel-ClosesAll (some x) = refl

dial_tunnel-ClosesAll :
    (net : Network) (addr user : Text) (auth : Auth) (e : Option Text)
    → ClosesAll (dial_tunnel net addr user auth (bastion ∷ []) e)
unfolding dial_tunnel client_from_conn close
dial_tunnel-ClosesAll net addr user auth (some x) = refl
dial_tunnel-ClosesAll net addr user auth none =
    after_tunnel-ClosesAll (net.handshake tunnel addr user auth)

after_bastion-ClosesAll :
    (net : Network) (addr user : Text) (auth : Auth) (e : Option Text)
    → ClosesAll (after_bastion net addr user auth (shaken bastion (bastion ∷ []) e))
unfolding after_bastion shaken close
after_bastion-ClosesAll net addr user auth none =
    dial_tunnel-ClosesAll net addr user auth (net.through addr)
after_bastion-ClosesAll net addr user auth (some x) = refl

dial_bastion-ClosesAll :
    (net : Network) (addr user : Text) (auth : Auth) (baddr buser : Text) (bauth : Auth)
    (e : Option Text)
    → ClosesAll (dial_bastion net addr user auth baddr buser bauth e)
unfolding dial_bastion client_from_conn
dial_bastion-ClosesAll net addr user auth baddr buser bauth (some x) = refl
dial_bastion-ClosesAll net addr user auth baddr buser bauth none =
    after_bastion-ClosesAll net addr user auth (net.handshake bastion baddr buser bauth)

with_bastion_auth-ClosesAll :
    (net : Network) (addr : Text) (creds : Credentials) (auth : Auth) (b : Result Text Auth)
    → ClosesAll (with_bastion_auth net addr creds auth b)
unfolding with_bastion_auth
with_bastion_auth-ClosesAll net addr creds auth (err e) = refl
with_bastion_auth-ClosesAll net addr creds auth (ok b) =
    let baddr = join_host_port creds.bastion_host (port_or creds.bastion_port) in
    dial_bastion-ClosesAll net addr creds.user auth baddr (or_user creds.bastion_user creds.user) b
      (net.connect baddr)

either-ClosesAll :
    (b : Bool) (p q : Dialled) → ClosesAll p → ClosesAll q → ClosesAll (if b then p else q)
either-ClosesAll true p q hp hq = hp
either-ClosesAll false p q hp hq = hq

with_auth-ClosesAll :
    (net : Network) (addr : Text) (creds : Credentials) (a : Result Text Auth)
    → ClosesAll (with_auth net addr creds a)
unfolding with_auth
with_auth-ClosesAll net addr creds (err e) = refl
with_auth-ClosesAll net addr creds (ok auth) =
    let bauth =
      auth_from net creds.bastion_private_key creds.bastion_passphrase creds.bastion_password in
    either-ClosesAll (is_empty (trim_space creds.bastion_host))
      (dial_direct net addr creds.user auth (net.connect addr))
      (with_bastion_auth net addr creds auth bauth)
      (dial_direct-ClosesAll net addr creds.user auth (net.connect addr))
      (with_bastion_auth-ClosesAll net addr creds auth bauth)

-- Dialling leaks no connection, directly or through a bastion, whatever the network answers: behind an
-- error nothing is open, and behind a success nothing is once the client is closed and the cleanup done.
pub dial-ClosesAll :
    (net : Network) (host : Text) (creds : Credentials) → ClosesAll (dial net host creds)
unfolding dial
dial-ClosesAll net host creds =
    with_auth-ClosesAll net (join_host_port host (port_or creds.port)) creds
      (auth_from net creds.private_key creds.passphrase creds.password)
