-- ===== src/Opamp/Registry/Traces.antt =====
-- The connection registry over any interleaving of messages and closings.
use opsramp_agent_orchestrat.Prelude.{
  ◌≡◌, refl, ap, sym, ◌∙◌, ◌⊎◌, inl, inr, Option, Option-cases, none, some, List, [], ◌∷◌, arith,
  ◌==◌, ==_iff, if◌then◌else◌, Text, Bool-cases,
}
use opsramp_agent_orchestrat.Prelude.Dicts
use opsramp_agent_orchestrat.Opamp.Registry.{
  Conn, uid_of, Registry, empty, conn_for, register_conn, close_known, close_conn, uid_of-set_uid,
  uid_of-drop_conn,
}
use opsramp_agent_orchestrat.Opamp.Registry.Links.{
  IsLinked, register_conn-IsLinked, close_conn-IsLinked,
}

pub data Event : Type 0 where
  -- a message of the connection, with its UID
  message : Conn → Text → Event
  closed : Conn → Event

-- One handler's part under the lock.
unfoldable pub step : Event → Registry → Registry
unfolding register_conn close_conn
step (message c u) r = (register_conn u c r).1
step (closed c) r = (close_conn c r).1

-- The newest event stands first.
unfoldable pub run : List Event → Registry
unfolding step
run [] = empty
run (e ∷ es) = step e (run es)

-- The last event of a connection is a message, and this is its UID.
unfoldable pub speaks_for : List Event → Conn → Option Text
speaks_for [] c = none
speaks_for (message d u ∷ es) c = if d == c then some u else speaks_for es c
speaks_for (closed d ∷ es) c = if d == c then none else speaks_for es c

-- Each connection speaks for one UID between its closings.
abbrev pub AreSteady : List Event → Type 0
AreSteady [] = Unit
AreSteady (message c u ∷ es) =
    ((speaks_for es c ≡ none) ⊎ (speaks_for es c ≡ some u)) × AreSteady es
AreSteady (closed c ∷ es) = AreSteady es

close_conn-uids :
    (r : Registry) (c d : Conn)
    → uid_of (close_conn c r).1.by_conn d ≡ (if c == d then none else uid_of r.by_conn d)
unfolding close_conn close_known
close_conn-uids r c d = elim (Option-cases (uid_of r.by_conn c)) [
  | inl e ↦ rw e (elim (Bool-cases (c == d)) [
    | inl q ↦ rw q (ap (uid_of r.by_conn) (sym ((==_iff c d).0 q)) ∙ e)
    | inr q ↦ rw q refl
  ])
  | inr (u, e) ↦ rw e (uid_of-drop_conn r.by_conn c d)
]

-- What the registry knows of a connection is what its events say.
run-uid_of : (es : List Event) (c : Conn) → uid_of (run es).by_conn c ≡ speaks_for es c
unfolding run speaks_for register_conn uid_of
run-uid_of [] c = refl
run-uid_of (message d u ∷ es) c = uid_of-set_uid (run es).by_conn d c u ∙ rw (run-uid_of es c) refl
run-uid_of (closed d ∷ es) c = close_conn-uids (run es) d c ∙ rw (run-uid_of es c) refl

run-IsLinked : (es : List Event) → AreSteady es → IsLinked (run es)
unfolding run conn_for Dicts.get
run-IsLinked [] h = record { linked = λ u c e. ground (arith, e) }
run-IsLinked (message c u ∷ es) h =
    register_conn-IsLinked (run es) u c (run-IsLinked es h.1)
      (elim h.0 [ inl e ↦ inl (run-uid_of es c ∙ e) | inr e ↦ inr (run-uid_of es c ∙ e) ])
run-IsLinked (closed c ∷ es) h = close_conn-IsLinked (run es) c (run-IsLinked es h)

-- After any messages and closings, in any order, where a connection does not change its UID while it
-- is open, the connection of a UID is open and has that UID.
pub run-conn_for :
    (es : List Event) (u : Text) (c : Conn)
    → AreSteady es
    → conn_for (run es) u ≡ some c
    → speaks_for es c ≡ some u
run-conn_for es u c h found = sym (run-uid_of es c) ∙ (run-IsLinked es h).linked u c found
