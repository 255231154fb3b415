-- ===== src/Opamp/Registry.antt =====
-- internal/opampserver/server.go: the live connections, by instance UID and by connection.
pub mod Links
pub mod Traces
use opsramp_agent_orchestrat.Prelude.{
  ℕ, Bool, true, false, not, ◌&&◌, ◌||◌, Option, none, some, List, [], ◌∷◌, ◌==◌, if◌then◌else◌,
  Text, ◌≡◌, refl, arith,
}
use opsramp_agent_orchestrat.Prelude.Dicts
use opsramp_agent_orchestrat.Prelude.Dicts.{Dict}

-- A `types.Connection`, by identity.
abbrev pub Conn : Type 0
Conn = ℕ

-- `byConn`
unfoldable pub uid_of : List (Conn × Text) → Conn → Option Text
uid_of [] c = none
uid_of ((d, u) ∷ m) c = if d == c then some u else uid_of m c

unfoldable pub set_uid : List (Conn × Text) → Conn → Text → List (Conn × Text)
set_uid [] c u = (c, u) ∷ []
set_uid ((d, v) ∷ m) c u = let rest = set_uid m c u in if d == c then (c, u) ∷ m else (d, v) ∷ rest

unfoldable pub drop_conn : List (Conn × Text) → Conn → List (Conn × Text)
drop_conn [] c = []
drop_conn ((d, v) ∷ m) c = let rest = drop_conn m c in if d == c then rest else (d, v) ∷ rest

pub record Registry : Type 0 where
  pub by_uid : Dict Conn
  pub by_conn : List (Conn × Text)

abbrev pub empty : Registry
empty = record { by_uid = []; by_conn = [] }

-- `connFor`
unfoldable pub conn_for : Registry → Text → Option Conn
conn_for r uid = Dicts.get r.by_uid uid

unfoldable is_new : Option Conn → Conn → Bool
is_new none conn = true
is_new (some prev) conn = not (prev == conn)

-- Whether the connection is new for its UID, and the registry with it.
unfoldable pub register_conn : Text → Conn → Registry → Bool × Registry
unfolding is_new
register_conn uid conn r = (
  is_new (Dicts.get r.by_uid uid) conn,
  record { by_uid = Dicts.put r.by_uid uid conn; by_conn = set_uid r.by_conn conn uid },
)

-- The entry of the UID goes only if it is still this connection's.
unfoldable unlink : Option Conn → Text → Conn → Dict Conn → Dict Conn
unlink none uid conn m = m
unlink (some cur) uid conn m = if cur == conn then Dicts.remove m uid else m

unfoldable pub close_known : Option Text → Conn → Registry → Registry
unfolding unlink
close_known none conn r = r
close_known (some uid) conn r = record {
  by_uid = unlink (Dicts.get r.by_uid uid) uid conn r.by_uid;
  by_conn = drop_conn r.by_conn conn;
}

-- The part of `onConnectionClose` under the lock: the UID of the connection, if it had one.
unfoldable pub close_conn : Conn → Registry → Option Text × Registry
unfolding close_known
close_conn conn r = let uid = uid_of r.by_conn conn in (uid, close_known uid conn r)

unfoldable pub connected_uids : Registry → List Text
connected_uids r = Dicts.keys r.by_uid

pub uid_of-set_uid :
    (m : List (Conn × Text)) (c d : Conn) (u : Text)
    → uid_of (set_uid m c u) d ≡ (if c == d then some u else uid_of m d)
unfolding uid_of set_uid
uid_of-set_uid [] c d u = refl
uid_of-set_uid ((e, v) ∷ m) c d u = ground (arith, uid_of-set_uid m c d u)

pub uid_of-drop_conn :
    (m : List (Conn × Text)) (c d : Conn)
    → uid_of (drop_conn m c) d ≡ (if c == d then none else uid_of m d)
unfolding uid_of drop_conn
uid_of-drop_conn [] c d = ground arith
uid_of-drop_conn ((e, v) ∷ m) c d = ground (arith, uid_of-drop_conn m c d)

-- A connection that has sent no message is not known, and closing it changes nothing.
pub close_known-none : (c : Conn) (r : Registry) → close_known none c r ≡ r
unfolding close_known
close_known-none c r = refl
