-- ===== src/Opamp/Messages/Connected.antt =====
-- The agent's row and its connection behind a message, and behind the end of a connection.
use opsramp_agent_orchestrat.Prelude.{
  ◌≡◌, ◌≢◌, refl, ap, sym, subst, ◌∙◌, Bool, false, some, Text, text_eq_refl, is_empty, Result, ok,
  err,
}
use opsramp_agent_orchestrat.Prelude.Dicts.{get-put}
use opsramp_agent_orchestrat.Model.{Agent}
use opsramp_agent_orchestrat.Store.World.{Error, World, require, find}
use opsramp_agent_orchestrat.Store.Steps.{IsReliable, read-IsReliable}
use opsramp_agent_orchestrat.Store.Agents.{
  connected, disconnected, has_uid, get_agent, set_agent_status,
}
use opsramp_agent_orchestrat.Opamp.Hex.{hex_encode}
use opsramp_agent_orchestrat.Opamp.Registry.Links.{close_known-superseded}
use opsramp_agent_orchestrat.Opamp.Registry.{
  Conn, Registry, uid_of, conn_for, register_conn, close_conn,
}
use opsramp_agent_orchestrat.Opamp.Resolve.Least.{resolve_group-world}
use opsramp_agent_orchestrat.Opamp.Offers.{build_server_to_agent}
use opsramp_agent_orchestrat.Opamp.Offers.Settled.{build_server_to_agent-IsReliable}
use opsramp_agent_orchestrat.Opamp.Messages.{
  answer, resolved, reported_of, Setup, AgentToServer, close_row, persist, on_message,
  on_connection_close,
}
use opsramp_agent_orchestrat.Opamp.Messages.Kept.{
  Says, persist-Says, update_agent-Says, add_event-Keeps,
}

answer-world :
    (s : Setup) (msg : AgentToServer) (w : World) (r : Result Error Agent)
    → IsReliable w
    → (answer s msg (r, w)).1 ≡ w
unfolding answer resolved
answer-world s msg w (err e) h = refl
answer-world s msg w (ok agent) h =
    let a : Agent = (resolved s.default_group agent w).0 in
    let same : (resolved s.default_group agent w).1 ≡ w =
      resolve_group-world s.default_group agent w h in
    ap (λ v. (build_server_to_agent s.offering a msg.instance_uid (reported_of msg) v).1) same
    ∙ ap (λ p. p.1)
        (build_server_to_agent-IsReliable s.offering a msg.instance_uid (reported_of msg) w h)

-- A message with a UID, while the database answers, leaves its connection as the UID's, and the UID's
-- row there and connected, whatever the message reports.
pub on_message-connects :
    (s : Setup) (conn : Conn) (msg : AgentToServer) (r : Registry) (w : World)
    → IsReliable w
    → is_empty (hex_encode msg.instance_uid) ≡ false
    → (conn_for (on_message s conn msg (r, w)).1 (hex_encode msg.instance_uid) ≡ some conn)
      × Says (hex_encode msg.instance_uid) connected (on_message s conn msg (r, w)).2
unfolding on_message register_conn conn_for get_agent
on_message-connects s conn msg r w h named =
    let uid : Text = hex_encode msg.instance_uid in
    let new : Bool × Registry = register_conn uid conn r in
    let stored : World = persist s uid new.0 msg w in
    let says : Says uid connected stored = persist-Says s uid new.0 msg w h in
    let got : get_agent uid stored ≡ (require (find (has_uid uid) stored.db.agents), stored) =
      read-IsReliable (λ db. require (find (has_uid uid) db.agents)) stored says.1 in
    let same : (answer s msg (get_agent uid stored)).1 ≡ stored =
      ap (λ x. (answer s msg x).1) got
      ∙ answer-world s msg stored (require (find (has_uid uid) stored.db.agents)) says.1 in
    rw named (
      rw (get-put r.by_uid uid uid conn, text_eq_refl uid) refl,
      subst (Says uid connected) (sym same) says,
    )

-- A connection that closes after a newer one of the same UID has taken its place, while the database
-- answers: the newer connection stays the UID's, and the UID's row is disconnected all the same.
pub on_connection_close-superseded :
    (c d : Conn) (uid : Text) (a : Agent) (r : Registry) (w : World)
    → IsReliable w
    → uid_of r.by_conn c ≡ some uid
    → conn_for r uid ≡ some d
    → d ≢ c
    → find (has_uid uid) w.db.agents ≡ some a
    → (conn_for (on_connection_close c (r, w)).0 uid ≡ some d)
      × Says uid disconnected (on_connection_close c (r, w)).1
unfolding on_connection_close close_conn close_row set_agent_status
on_connection_close-superseded c d uid a r w h known newer other row = rw known (
  close_known-superseded c d uid r newer other,
  add_event-Keeps uid disconnected uid _ _ _
      (update_agent-Says uid disconnected _ w a (λ n b. refl) row refl h),
)
