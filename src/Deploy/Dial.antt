-- ===== src/Deploy/Dial.antt =====
-- internal/deploy/ssh.go: how a host is dialled, directly or through a bastion, with the connections that
-- are open. What the network and the SSH library answer are parameters.
pub mod Closed
use opsramp_agent_orchestrat.Prelude.{
  ℕ, Bool, true, false, not, ◌||◌, Option, none, some, List, [], ◌∷◌, ◌++◌, ◌==◌, if◌then◌else◌,
  Text, codes, decimal, is_empty, trim_space, Result, ok, err,
}
use opsramp_agent_orchestrat.Deploy.Targets.{has_char}

pub record Credentials : Type 0 where
  pub user : Text
  pub password : Text
  pub private_key : Text
  pub passphrase : Text
  pub port : ℕ
  pub use_sudo : Bool
  pub bastion_host : Text
  pub bastion_user : Text
  pub bastion_password : Text
  pub bastion_private_key : Text
  pub bastion_passphrase : Text
  pub bastion_port : ℕ

-- The open connections: to the host itself, to the bastion, and to the host through it.
pub data Handle : Type 0 where
  direct bastion tunnel : Handle

unfoldable pub same_handle : Handle → Handle → Bool
same_handle direct direct = true
same_handle bastion bastion = true
same_handle tunnel tunnel = true
same_handle x y = false

-- `Close` of a connection.
unfoldable pub close : Handle → List Handle → List Handle
unfolding same_handle
close x [] = []
close x (y ∷ ys) = let rest = close x ys in if same_handle y x then rest else y ∷ rest

-- A client's authentication: a key, by its text and passphrase, or a password both ways.
pub data Auth : Type 0 where
  public_key : Text → Text → Auth
  password_auth : Text → Auth

-- Each is an error's text, or nothing: parsing a key with its passphrase, connecting to an address, the
-- handshake on a connection with an address, a user and an authentication, and the tunnel to an address.
pub record Network : Type 0 where
  pub parse_key : Text → Text → Option Text
  pub connect : Text → Option Text
  pub handshake : Handle → Text → Text → Auth → Option Text
  pub through : Text → Option Text

unfoldable pub port_or : ℕ → ℕ
port_or p = if p == 0 then 22 else p

-- `net.JoinHostPort`
unfoldable pub join_host_port : Text → ℕ → Text
unfolding decimal has_char
join_host_port host port =
    (if has_char 58 host then codes "[" ++ host ++ codes "]" else host) ++ codes ":" ++ decimal port

parsed : Text → Text → Option Text → Result Text Auth
parsed key pass none = ok (public_key key pass)
parsed key pass (some e) = err (codes "parse private key: " ++ e)

unfoldable pub auth_from : Network → Text → Text → Text → Result Text Auth
unfolding parsed trim_space
auth_from net private_key passphrase password =
    if not (is_empty (trim_space private_key))
    then parsed private_key passphrase (net.parse_key private_key passphrase)
    else if not (is_empty password)
    then ok (password_auth password)
    else err (codes "no SSH credentials provided (password or private key required)")

-- The connection of the client, with what its cleanup closes, and what is open.
abbrev pub Dialled : Type 0
Dialled = Result Text (Handle × List Handle) × List Handle

-- A connection without a handshake is closed.
unfoldable pub shaken : Handle → List Handle → Option Text → Option Text × List Handle
unfolding close
shaken h o none = (none, o)
shaken h o (some e) = (some (codes "ssh handshake: " ++ e), close h o)

-- `clientFromConn`
unfoldable pub client_from_conn :
    Network → Handle → Text → Text → Auth → List Handle → Option Text × List Handle
unfolding shaken
client_from_conn net h addr user auth o = shaken h o (net.handshake h addr user auth)

unfoldable after_direct : Option Text × List Handle → Dialled
after_direct (none, o) = (ok (direct, []), o)
after_direct (some e, o) = (err e, o)

unfoldable dial_direct : Network → Text → Text → Auth → Option Text → Dialled
unfolding after_direct client_from_conn
dial_direct net addr user auth (some e) = (err (codes "connect: " ++ e), [])
dial_direct net addr user auth none =
    after_direct (client_from_conn net direct addr user auth (direct ∷ []))

unfoldable after_tunnel : Option Text × List Handle → Dialled
unfolding close
after_tunnel (none, o) = (ok (tunnel, bastion ∷ []), o)
after_tunnel (some e, o) = (err e, close bastion o)

unfoldable dial_tunnel : Network → Text → Text → Auth → List Handle → Option Text → Dialled
unfolding after_tunnel client_from_conn close
dial_tunnel net addr user auth o (some e) =
    (err (codes "dial target via bastion: " ++ e), close bastion o)
dial_tunnel net addr user auth o none =
    after_tunnel (client_from_conn net tunnel addr user auth (tunnel ∷ o))

unfoldable after_bastion : Network → Text → Text → Auth → Option Text × List Handle → Dialled
unfolding dial_tunnel
after_bastion net addr user auth (some e, o) = (err (codes "bastion handshake: " ++ e), o)
after_bastion net addr user auth (none, o) = dial_tunnel net addr user auth o (net.through addr)

unfoldable dial_bastion : Network → Text → Text → Auth → Text → Text → Auth → Option Text → Dialled
unfolding after_bastion client_from_conn
dial_bastion net addr user auth baddr buser bauth (some e) =
    (err (codes "connect bastion: " ++ e), [])
dial_bastion net addr user auth baddr buser bauth none =
    after_bastion net addr user auth (client_from_conn net bastion baddr buser bauth (bastion ∷ []))

unfoldable or_user : Text → Text → Text
or_user [] user = user
or_user (c ∷ s) user = c ∷ s

unfoldable with_bastion_auth : Network → Text → Credentials → Auth → Result Text Auth → Dialled
unfolding dial_bastion join_host_port port_or or_user
with_bastion_auth net addr creds auth (err e) = (err (codes "bastion: " ++ e), [])
with_bastion_auth net addr creds auth (ok bauth) =
    let baddr = join_host_port creds.bastion_host (port_or creds.bastion_port) in
    dial_bastion net addr creds.user auth baddr (or_user creds.bastion_user creds.user) bauth
      (net.connect baddr)

unfoldable with_auth : Network → Text → Credentials → Result Text Auth → Dialled
unfolding dial_direct with_bastion_auth auth_from trim_space
with_auth net addr creds (err e) = (err e, [])
with_auth net addr creds (ok auth) =
    if is_empty (trim_space creds.bastion_host)
    then dial_direct net addr creds.user auth (net.connect addr)
    else with_bastion_auth net addr creds auth
        (auth_from net creds.bastion_private_key creds.bastion_passphrase creds.bastion_password)

unfoldable pub dial : Network → Text → Credentials → Dialled
unfolding with_auth auth_from join_host_port port_or
dial net host creds =
    with_auth net (join_host_port host (port_or creds.port)) creds
      (auth_from net creds.private_key creds.passphrase creds.password)

-- The deferred calls, in their order: the client's `Close`, then the cleanup.
unfoldable pub hang_up : Handle × List Handle → List Handle → List Handle
unfolding close
hang_up (h, []) o = close h o
hang_up (h, b ∷ bs) o = hang_up (b, bs) (close h o)
