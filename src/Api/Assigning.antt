-- ===== src/Api/Assigning.antt =====
-- internal/api/agents.go: assigning an agent to a group.
use opsramp_agent_orchestrat.Prelude.{
  ◌≡◌, refl, ap, ◌∙◌, true, false, Option, some, List, [], ◌∷◌, ◌++◌, ◌+◌, Text, codes, Result, ok,
  err, is_empty, if◌then◌else◌, arith,
}
use opsramp_agent_orchestrat.Model.{Agent, Group}
use opsramp_agent_orchestrat.Store.World.{
  Error, constraint, World, settle, find, exists, update_where, require,
}
use opsramp_agent_orchestrat.Store.Rows.{find-update_where, find-holds, exists_lem}
use opsramp_agent_orchestrat.Store.Steps.{
  IsReliable, read-IsReliable, write-IsReliable, statement-IsReliable,
}
use opsramp_agent_orchestrat.Store.Agents.{
  has_uid, has_group_name, group_known, get_agent, set_agent_group, add_event,
}
use opsramp_agent_orchestrat.Store.Groups.{get_group}
use opsramp_agent_orchestrat.Opamp.Messages.{logged}
use opsramp_agent_orchestrat.Opamp.Push.Pushing.{push_to_agent-IsReliable}
use opsramp_agent_orchestrat.Api.Http.{Request, State, Site, map_store_err}
use opsramp_agent_orchestrat.Api.Agents.{
  group_label, try_push, assign_group, with_group, handle_set_agent_group,
}

get_agent-found :
    (uid : Text) (a : Agent) (w : World)
    → IsReliable w
    → find (has_uid uid) w.db.agents ≡ some a
    → get_agent uid w ≡ (ok a, w)
unfolding get_agent require
get_agent-found uid a w r there =
    read-IsReliable (λ db. require (find (has_uid uid) db.agents)) w r
    ∙ ap (λ (o : Option Agent). (require o, w)) there

get_group-known :
    (name : Text) (g : Group) (w : World)
    → IsReliable w
    → find (has_group_name name) w.db.groups ≡ some g
    → get_group name w ≡ (ok g, w)
unfolding get_group require
get_group-known name g w r there =
    read-IsReliable (λ db. require (find (has_group_name name) db.groups)) w r
    ∙ ap (λ (o : Option Group). (require o, w)) there

-- The agents with one of them assigned.
abbrev assigned_rows : Text → Option Text → List Agent → List Agent
assigned_rows uid group agents =
    update_where (has_uid uid) (λ a. record a { assigned_group = group }) agents

set_agent_group-settled :
    (uid : Text) (group : Option Text) (w : World)
    → IsReliable w
    → set_agent_group uid group w
      ≡ settle w (
          if exists (has_uid uid) w.db.agents
          then (if group_known group w.db
              then ok (tt, record w.db { agents = assigned_rows uid group w.db.agents })
              else err constraint)
          else ok (tt, w.db))
unfolding set_agent_group
set_agent_group-settled uid group w r =
    statement-IsReliable
      (λ _ db.
        if exists (has_uid uid) db.agents
        then (if group_known group db
            then ok (tt, record db { agents = assigned_rows uid group db.agents })
            else err constraint)
        else ok (tt, db))
      w r

module _ (s : Site) (uid : Text) (r : Request) (a : Agent) (st : State)
    (reliable : IsReliable st.world) (there : find (has_uid uid) st.world.db.agents ≡ some a) where
  known : exists (has_uid uid) st.world.db.agents ≡ true
  known = exists_lem (has_uid uid) st.world.db.agents ∙ rw there refl

  -- Assigning an agent that is there to the group "", while the database answers and no group has the
  -- name "", is an internal error, and the agent keeps its group: the empty name is not taken for no
  -- group, although the event's label would call it automatic.
  pub handle_set_agent_group-blank :
      s.bodies.group_of r.body ≡ ok (some [])
      → exists (has_group_name []) st.world.db.groups ≡ false
      → ((handle_set_agent_group s uid r st).0.status ≡ 500)
        × ((handle_set_agent_group s uid r st).1.world.db ≡ st.world.db)
        × (group_label (some []) ≡ codes "(auto)")
  unfolding handle_set_agent_group with_group assign_group map_store_err group_known group_label
  handle_set_agent_group-blank parsed no_blank =
      let refused : set_agent_group uid (some []) st.world ≡ (err constraint, st.world) =
        set_agent_group-settled uid (some []) st.world reliable ∙ rw (known, no_blank) refl in
      rw (parsed, get_agent-found uid a st.world reliable there, refused) (refl, refl, refl)

  -- The world with the agent assigned, and with the event behind it.
  abbrev assigned_world : Option Text → World
  assigned_world group = record st.world {
    db = record st.world.db { agents = assigned_rows uid group st.world.db.agents };
  }

  assigned_row :
      (group : Option Text)
      → find (has_uid uid) (assigned_rows uid group st.world.db.agents)
        ≡ some (record a { assigned_group = group })
  unfolding has_uid
  assigned_row group =
      find-update_where (has_uid uid) (has_uid uid) (λ b. record b { assigned_group = group })
        st.world.db.agents (λ b. refl)
      ∙ rw (there, find-holds (has_uid uid) st.world.db.agents a there) refl

  set_agent_group-known :
      (group : Option Text)
      → group_known group st.world.db ≡ true
      → set_agent_group uid group st.world ≡ (ok tt, assigned_world group)
  set_agent_group-known group is_known =
      set_agent_group-settled uid group st.world reliable ∙ rw (known, is_known) refl

  -- What the log of events leaves of the agents.
  logged-agents :
      (kind detail : Text) (w : World)
      → IsReliable w
      → ((logged (add_event uid kind detail) w).db.agents ≡ w.db.agents)
        × IsReliable (logged (add_event uid kind detail) w)
  unfolding add_event
  logged-agents kind detail w q =
      let e =
        write-IsReliable
          (λ now db. record db {
            events =
                db.events
                ++ record {
                  id = db.next_event_id;
                  instance_uid = uid;
                  kind = kind;
                  detail = detail;
                  ts = now;
                }
                  ∷ [];
            next_event_id = db.next_event_id + 1;
          })
          w q in
      (
        ap (λ (p : Result Error (Unit {0}) × World). p.1.db.agents) e,
        ap (λ (p : Result Error (Unit {0}) × World). p.1.faults) e ∙ q,
      )

  assign_group-known :
      (group : Option Text)
      → group_known group st.world.db ≡ true
      → ((assign_group s uid group st).0.status ≡ 200)
        × (find (has_uid uid) (assign_group s uid group st).1.world.db.agents
            ≡ some (record a { assigned_group = group }))
  unfolding assign_group try_push
  assign_group-known group is_known =
      let w : World =
        logged (add_event uid (codes "group-assigned") (group_label group))
          (assigned_world group) in
      let (rows, q) =
        logged-agents (codes "group-assigned") (group_label group) (assigned_world group)
          reliable in
      rw (set_agent_group-known group is_known) (
        refl,
        ap (λ (v : World). find (has_uid uid) v.db.agents)
              (push_to_agent-IsReliable s.setup s.send st.registry uid w q)
            ∙ ap (find (has_uid uid)) rows
            ∙ assigned_row group,
      )

  -- Assigning an agent that is there to a group that is there, other than "", while the database
  -- answers, is answered with 200, and the agent's row has the group and is the same otherwise, whatever
  -- the push gives.
  pub handle_set_agent_group-assigns :
      (name : Text) (g : Group)
      → s.bodies.group_of r.body ≡ ok (some name)
      → is_empty name ≡ false
      → find (has_group_name name) st.world.db.groups ≡ some g
      → ((handle_set_agent_group s uid r st).0.status ≡ 200)
        × (find (has_uid uid) (handle_set_agent_group s uid r st).1.world.db.agents
            ≡ some (record a { assigned_group = some name }))
  unfolding handle_set_agent_group with_group group_known
  handle_set_agent_group-assigns [] g parsed named listed = ground (arith, named)
  handle_set_agent_group-assigns (c ∷ name) g parsed named listed =
      rw
        (
          parsed,
          get_agent-found uid a st.world reliable there,
          get_group-known (c ∷ name) g st.world reliable listed,
        )
        (assign_group-known (some (c ∷ name))
          (exists_lem (has_group_name (c ∷ name)) st.world.db.groups ∙ rw listed refl))
