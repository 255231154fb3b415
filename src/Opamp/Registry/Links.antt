-- ===== src/Opamp/Registry/Links.antt =====
-- What the connection registry keeps, over any messages and closings.
use opsramp_agent_orchestrat.Prelude.{
  ◌≡◌, ◌≢◌, ◌⊎◌, inl, inr, Option-cases, none, some, arith, ==_iff, Text, text_eq_iff,
}
use opsramp_agent_orchestrat.Prelude.Dicts.{get-put, get-remove}
use opsramp_agent_orchestrat.Opamp.Registry.{
  Conn, uid_of, Registry, conn_for, register_conn, close_known, close_known-none, close_conn,
  uid_of-set_uid, uid_of-drop_conn,
}

-- Each UID's connection is known under that UID.
pub record IsLinked (r : Registry) : Type 0 where
  pub linked : (u : Text) (c : Conn) → conn_for r u ≡ some c → uid_of r.by_conn c ≡ some u

-- The connection has no UID yet, or this one.
abbrev pub KeepsUid : Registry → Text → Conn → Type 0
KeepsUid r u c = (uid_of r.by_conn c ≡ none) ⊎ (uid_of r.by_conn c ≡ some u)

-- A message keeps the links, where the connection does not change its UID.
pub register_conn-IsLinked :
    (r : Registry) (u : Text) (c : Conn)
    → IsLinked r
    → KeepsUid r u c
    → IsLinked (register_conn u c r).1
unfolding register_conn conn_for
register_conn-IsLinked r u c h k = record {
  linked = λ v d e. ground (
    arith,
    h.linked v d,
    get-put r.by_uid u v c,
    uid_of-set_uid r.by_conn c d u,
    text_eq_iff u v,
  );
}

close_known-IsLinked :
    (r : Registry) (u : Text) (c : Conn)
    → uid_of r.by_conn c ≡ some u
    → IsLinked r
    → (v : Text) (d : Conn) → conn_for (close_known (some u) c r) v ≡ some d
    → uid_of (close_known (some u) c r).by_conn d ≡ some v
unfolding close_known conn_for
close_known-IsLinked r u c known h v d e = ground (
  arith,
  h.linked v d,
  h.linked u,
  get-remove r.by_uid u v,
  uid_of-drop_conn r.by_conn c d,
  text_eq_iff u v,
)

-- The end of a connection keeps the links.
pub close_conn-IsLinked : (r : Registry) (c : Conn) → IsLinked r → IsLinked (close_conn c r).1
unfolding close_conn
close_conn-IsLinked r c h = elim (Option-cases (uid_of r.by_conn c)) [
  | inl e ↦ rw (e, close_known-none c r) h
  | inr (u, e) ↦ rw e record { linked = close_known-IsLinked r u c e h }
]

pub close_known-superseded :
    (c d : Conn) (u : Text) (r : Registry)
    → conn_for r u ≡ some d
    → d ≢ c
    → conn_for (close_known (some u) c r) u ≡ some d
unfolding close_known conn_for
close_known-superseded c d u r newer other = ground (arith, newer, ==_iff d c)

close_known-uid_of :
    (u : Text) (c : Conn) (r : Registry) → uid_of (close_known (some u) c r).by_conn c ≡ none
unfolding close_known
close_known-uid_of u c r = ground (arith, uid_of-drop_conn r.by_conn c c)

close_conn-uid_of : (c : Conn) (r : Registry) → uid_of (close_conn c r).1.by_conn c ≡ none
unfolding close_conn
close_conn-uid_of c r = elim (Option-cases (uid_of r.by_conn c)) [
  | inl e ↦ rw (e, close_known-none c r) e
  | inr (u, e) ↦ rw e (close_known-uid_of u c r)
]

-- Behind its end a connection is no UID's, where the links held before: nothing is sent to it any more.
pub close_conn-forgets :
    (r : Registry) (c : Conn) (u : Text) → IsLinked r → conn_for (close_conn c r).1 u ≢ some c
close_conn-forgets r c u h found =
    ground (arith, (close_conn-IsLinked r c h).linked u c found, close_conn-uid_of c r)
